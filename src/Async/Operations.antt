-- ===== src/Async/Operations.antt =====
-- internal/async/manager.go: the other operations of the manager, and any sequence of steps.
use go_odata.Prelude.{
  ℕ, true, List, [], ◌∷◌, none, some, Bytes, ◌≡◌, refl, sym, ap, ◌∙◌, subst, arith, find, put,
  find-put, find-put_any, ◌==◌, ==_iff, Bool-cases, Option-cases, inl, inr, bytes_eq, bytes_eq_iff,
  ◌⊎◌,
}
use go_odata.Async.Records.{
  Time, Environment, JobOption, with_monitor_url, with_retry_after, Job, Phase, created, waiting,
  is_terminal, pending,
}
use go_odata.Async.Manager.{
  Manager, set_job, at_address, register, cancel_context, cancel_job, sweep, sweep_ids, sweep_id,
  apply_options, start_phase,
}
use go_odata.Async.Invariant.{
  IsValid, set_job-IsValid, listed, open_phase, at_address-cases, allocated_later, coherent_later,
  apart_later, rowed_later, listed-open_phase,
}

start_phase-created : (p : Phase) → start_phase p ≡ true → p ≡ created
start_phase-created created h = refl
start_phase-created _ h = cc

-- The options of a job set its URL and its duration only.
pub record IsNew (id : Bytes) (j : Job) : Type 0 where
  pub same_id : j.id ≡ id
  pub is_pending : j.status ≡ pending
  pub not_completed : j.completed_at ≡ none
  pub at_start : j.phase ≡ created

pub apply_options-IsNew :
    (id : Bytes) (os : List JobOption) (j : Job) → IsNew id j → IsNew id (apply_options os j)
unfolding apply_options
apply_options-IsNew id [] j h = h
apply_options-IsNew id (with_monitor_url url ∷ os) j h =
    apply_options-IsNew id os (record j { monitor_url = url })
      (record {
        same_id = h.same_id;
        is_pending = h.is_pending;
        not_completed = h.not_completed;
        at_start = h.at_start;
      })
apply_options-IsNew id (with_retry_after d ∷ os) j h =
    apply_options-IsNew id os (record j { retry_after = some d })
      (record {
        same_id = h.same_id;
        is_pending = h.is_pending;
        not_completed = h.not_completed;
        at_start = h.at_start;
      })

module _ {S : Type 0} (env : Environment S) where
  -- The map of a manager in which a created job is listed.
  module _ (m : Manager S) (r : ℕ) (j : Job) (v : IsValid env m) (h : m.heap r ≡ some j)
      (e : j.phase ≡ created) where
    abbrev started : Job
    started = record j { phase = waiting }

    present_put :
        (k : ℕ) (x : Job)
        → at_address m.heap r started k ≡ some x
        → listed x.phase ≡ true
        → find x.id (put j.id r m.jobs) ≡ some k
    present_put k x a q = elim (at_address-cases env m.heap r started k x a) [
      | inl (b, c) ↦ rw (ap (λ (t : Job). t.id) (sym c), b) (find-put j.id r m.jobs)
      | inr (n, d) ↦ elim (Bool-cases (bytes_eq j.id x.id)) [
        | inl y ↦
            let same =
              v.apart r k j x h d (rw e refl) (listed-open_phase x.phase q)
                ((bytes_eq_iff j.id x.id).0 y) in
            ground (arith, same, n)
        | inr y ↦ find-put_any j.id x.id r m.jobs ∙ rw y (v.present k x d q)
      ]
    ]

    known_put :
        (id : Bytes) (k : ℕ)
        → find id (put j.id r m.jobs) ≡ some k
        → (i : Job) × (at_address m.heap r started k ≡ some i)
          × (i.id ≡ id)
          × (listed i.phase ≡ true)
    known_put id k a = elim (Bool-cases (bytes_eq j.id id)) [
      | inl y ↦
          let this : r ≡ k = ground (arith, a, find-put_any j.id id r m.jobs, y) in
          (started, ground (arith, this), (bytes_eq_iff j.id id).0 y, refl)
      | inr y ↦
          let there : find id m.jobs ≡ some k =
            ground (arith, a, find-put_any j.id id r m.jobs, y) in
          let (i, b, c, d) = v.known id k there in
          elim (Bool-cases (k == r)) [
            | inl z ↦
                let this : i ≡ j = cc (b, h, (==_iff k r).0 z) in
                cc (d, ap (λ (x : Job). listed x.phase) this, ap listed e)
            | inr z ↦ (i, rw z b, c, d)
          ]
    ]

    register_here : IsValid env (record (set_job r started m) { jobs = put j.id r m.jobs })
    register_here = record {
      allocated = allocated_later env m r j started v h refl (λ q. rw e refl);
      coherent = coherent_later env m r j started v h (ground (arith, v.coherent r j h, e));
      present = present_put;
      known = known_put;
      apart = apart_later env m r j started v h refl (λ q. rw e refl);
      rowed = rowed_later env m r j started v h refl (λ q. rw e refl);
    }

  pub register-IsValid : (r : ℕ) (m : Manager S) → IsValid env m → IsValid env (register r m)
  unfolding register
  register-IsValid r m v = elim (Option-cases (m.heap r)) [
    | inl e ↦ rw (e, register) v
    | inr (j, e) ↦ elim (Bool-cases (start_phase j.phase)) [
      | inl y ↦ rw (e, register, y) (register_here m r j v e (start_phase-created j.phase y))
      | inr y ↦ rw (e, register, y) v
    ]
  ]

  -- A change of a job's other fields.
  pub set_field-IsValid :
      (r : ℕ) (j j' : Job) (m : Manager S)
      → m.heap r ≡ some j
      → j'.id ≡ j.id
      → j'.phase ≡ j.phase
      → j'.status ≡ j.status
      → j'.completed_at ≡ j.completed_at
      → IsValid env m
      → IsValid env (set_job r j' m)
  set_field-IsValid r j j' m h i p s c v = set_job-IsValid env m r j j' v h (record {
    same_id = i;
    same_listed = ap listed p;
    still_open = λ o. ap open_phase (sym p) ∙ o;
    follows_coherent = rw (p, s, c) (v.coherent r j h);
  })

  pub cancel_context-IsValid :
      (r : ℕ) (m : Manager S) → IsValid env m → IsValid env (cancel_context r m)
  unfolding cancel_context
  cancel_context-IsValid r m v = elim (Option-cases (m.heap r)) [
    | inl e ↦ rw (e, cancel_context) v
    | inr (j, e) ↦ rw (e, cancel_context) (set_field-IsValid r j _ m e refl refl refl refl v)
  ]

  cancel_job-cases :
      (id : Bytes) (m : Manager S)
      → ((cancel_job id m).0 ≡ m) ⊎ ((r : ℕ) × ((cancel_job id m).0 ≡ cancel_context r m))
  unfolding cancel_job
  cancel_job-cases id m = elim (Option-cases (find id m.jobs)) [
    | inl e ↦ inl (ground (arith, e))
    | inr (r, e) ↦ elim (Option-cases (m.heap r)) [
      | inl h ↦ inl (ground (arith, e, h))
      | inr (j, h) ↦ elim (Bool-cases (is_terminal j.status)) [
        | inl y ↦ inl (ground (arith, e, h, y))
        | inr y ↦ inr (r, ground (arith, e, h, y))
      ]
    ]
  ]

  pub cancel_job-IsValid :
      (id : Bytes) (m : Manager S) → IsValid env m → IsValid env (cancel_job id m).0
  cancel_job-IsValid id m v = elim (cancel_job-cases id m) [
    | inl e ↦ subst (λ w. IsValid env w) (sym e) v
    | inr (r, e) ↦ subst (λ w. IsValid env w) (sym e) (cancel_context-IsValid r m v)
  ]

  -- No job of a valid manager's map is completed.
  sweep_id_lem :
      (now : Time) (m : Manager S) (id : Bytes) → IsValid env m → sweep_id now m id m.jobs ≡ m.jobs
  unfolding sweep_id
  sweep_id_lem now m id v = elim (Option-cases (find id m.jobs)) [
    | inl e ↦ rw (e, sweep_id)
    | inr (r, e) ↦
        let (j, h, i, l) = v.known id r e in
        let open_still : j.completed_at ≡ none = ground (arith, v.coherent r j h, l) in
        ground (arith, e, h, open_still)
  ]

  sweep_ids_lem :
      (now : Time) (m : Manager S) (keys : List (Bytes × ℕ))
      → IsValid env m
      → sweep_ids now m keys m.jobs ≡ m.jobs
  unfolding sweep_ids
  sweep_ids_lem now m [] v = refl
  sweep_ids_lem now m ((id, r) ∷ keys) v = rw (sweep_id_lem now m id v) (sweep_ids_lem now m keys v)

  pub sweep_lem : (now : Time) (m : Manager S) → IsValid env m → sweep now m ≡ m
  unfolding sweep
  sweep_lem now m v = ground (arith, sweep_ids_lem now m m.jobs v)

-- ===== src/Async/Safety.antt =====
-- internal/async/manager.go: each operation of the manager, as a step of its state.
use go_odata.Prelude.{
  ℕ, Bool, true, false, none, some, Bytes, ◌≡◌, refl, sym, ap, ◌∙◌, arith, find, remove,
  find-remove_any, ◌==◌, ==_iff, Bool-cases, Option-cases, inl, inr, bytes_eq, bytes_eq_iff,
}
use go_odata.Async.Records.{
  Time, Environment, Job, Phase, created, waiting, marked, handling, returned, unsaved, done,
  is_terminal, running,
}
use go_odata.Async.Manager.{
  Manager, set_job, at_address, work, work_at, outcome_of, HandlerResult, save_completion,
  save_status,
}
use go_odata.Async.Events.{IsDatabase}
use go_odata.Async.Invariant.{
  IsValid, set_job-IsValid, try_update-IsValid, CoherentAt, listed, open_phase, at_address-cases,
  allocated_later, coherent_later, apart_later, rowed_later, listed-open_phase,
}

pub outcome_of-is_terminal :
    (c : Bool) (r : HandlerResult) → is_terminal (outcome_of c r).status ≡ true
unfolding outcome_of
outcome_of-is_terminal c (resp, none) = refl
outcome_of-is_terminal c (resp, some e) = ground arith

module _ {S : Type 0} (env : Environment S) (law : IsDatabase env) where
  -- The job leaves the map, and its record is still open.
  module _ (m : Manager S) (r : ℕ) (j j' : Job) (v : IsValid env m) (h : m.heap r ≡ some j) where
    present_removed :
        open_phase j.phase ≡ true
        → listed j'.phase ≡ false
        → (k : ℕ) (x : Job) → at_address m.heap r j' k ≡ some x
        → listed x.phase ≡ true
        → find x.id (remove j.id m.jobs) ≡ some k
    present_removed o l k x e q = elim (at_address-cases env m.heap r j' k x e) [
      | inl (a, b) ↦ cc
      | inr (n, d) ↦ elim (Bool-cases (bytes_eq j.id x.id)) [
        | inl y ↦
            let same =
              v.apart r k j x h d o (listed-open_phase x.phase q) ((bytes_eq_iff j.id x.id).0 y) in
            ground (arith, same, n)
        | inr y ↦ find-remove_any j.id x.id m.jobs ∙ rw y (v.present k x d q)
      ]
    ]

    known_removed :
        (id : Bytes) (k : ℕ)
        → find id (remove j.id m.jobs) ≡ some k
        → (i : Job) × (at_address m.heap r j' k ≡ some i) × (i.id ≡ id) × (listed i.phase ≡ true)
    known_removed id k e = elim (Bool-cases (bytes_eq j.id id)) [
      | inl y ↦ cc (e, find-remove_any j.id id m.jobs, y)
      | inr y ↦
          let there : find id m.jobs ≡ some k =
            ground (arith, e, find-remove_any j.id id m.jobs, y) in
          let (i, a, b, c) = v.known id k there in
          elim (Bool-cases (k == r)) [
            | inl z ↦
                let this : i ≡ j = cc (a, h, (==_iff k r).0 z) in
                let same : j.id ≡ id = ap (λ (x : Job). x.id) (sym this) ∙ b in
                cc (y, (bytes_eq_iff j.id id).1 same)
            | inr z ↦ (i, rw z a, b, c)
          ]
    ]

    remove-IsValid :
        j'.id ≡ j.id
        → open_phase j.phase ≡ true
        → listed j'.phase ≡ false
        → CoherentAt j'.phase j'.status j'.completed_at
        → IsValid env (record (set_job r j' m) { jobs = remove j.id m.jobs })
    remove-IsValid i o l c = record {
      allocated = allocated_later env m r j j' v h i (λ q. o);
      coherent = coherent_later env m r j j' v h c;
      present = present_removed o l;
      known = known_removed;
      apart = apart_later env m r j j' v h i (λ q. o);
      rowed = rowed_later env m r j j' v h i (λ q. o);
    }

  work_at-IsValid :
      (now : Time) (result : HandlerResult) (r : ℕ) (j : Job) (p : Phase) (m : Manager S)
      → m.heap r ≡ some j
      → j.phase ≡ p
      → IsValid env m
      → IsValid env (work_at env now result r j p m)
  unfolding work_at
  work_at-IsValid now result r j created m h e v = v
  work_at-IsValid now result r j waiting m h e v = set_job-IsValid env m r j _ v h (record {
    same_id = refl;
    same_listed = rw e refl;
    still_open = λ o. rw e refl;
    follows_coherent = ground (arith, v.coherent r j h, e);
  })
  work_at-IsValid now result r j (marked t) m h e v =
      try_update-IsValid env _ j.id (save_status running t) law
        (set_job-IsValid env m r j _ v h (record {
          same_id = refl;
          same_listed = rw e refl;
          still_open = λ o. rw e refl;
          follows_coherent = ground (arith, v.coherent r j h, e);
        }))
        (λ k i a b c w d. d)
  work_at-IsValid now result r j handling m h e v = set_job-IsValid env m r j _ v h (record {
    same_id = refl;
    same_listed = rw e refl;
    still_open = λ o. rw e refl;
    follows_coherent =
        ground (arith, v.coherent r j h, e, outcome_of-is_terminal j.canceled result);
  })
  work_at-IsValid now result r j (returned o) m h e v =
      remove-IsValid m r j _ v h refl (rw e refl) refl (ground (arith, v.coherent r j h, e))
  work_at-IsValid now result r j (unsaved c) m h e v =
      let closed =
        set_job-IsValid env m r j (record j { phase = done }) v h
          (record {
            same_id = refl;
            same_listed = rw e refl;
            still_open = λ o. cc;
            follows_coherent = ground (arith, v.coherent r j h, e);
          }) in
      try_update-IsValid env (set_job r (record j { phase = done }) m) j.id (save_completion c) law
        closed
        (λ k i a o y w z. elim (at_address-cases env m.heap r (record j { phase = done }) k i a) [
          | inl (x, b) ↦ cc (o, ap (λ (t : Job). open_phase t.phase) b)
          | inr (n, d) ↦
              let same = v.apart r k j i h d (rw e refl) o ((bytes_eq_iff j.id i.id).0 y) in
              ground (arith, same, n)
        ])
  work_at-IsValid now result r j done m h e v = v

  pub work-IsValid :
      (now : Time) (result : HandlerResult) (r : ℕ) (m : Manager S)
      → IsValid env m
      → IsValid env (work env now result r m)
  unfolding work
  work-IsValid now result r m v = elim (Option-cases (m.heap r)) [
    | inl e ↦ rw (e, work) v
    | inr (j, e) ↦ rw (e, work) (work_at-IsValid now result r j j.phase m e refl v)
  ]

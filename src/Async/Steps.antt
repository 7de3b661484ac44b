-- ===== src/Async/Steps.antt =====
-- internal/async/manager.go: StartJob, the operations on the database, and any sequence of steps.
use go_odata.Prelude.{
  ℕ, Bool, true, false, List, [], ◌∷◌, Option, none, some, Bytes, ℤ, ◌≡◌, refl, sym, ap, ◌∙◌, subst,
  arith, find, ◌==◌, Bool-cases, Option-cases, inl, inr, bytes_eq, bytes_eq_iff,
}
use go_odata.Async.Records.{Time, Environment, JobRecord, JobOption, Job}
use go_odata.Async.Manager.{
  Manager, allocate, begin_job, apply_options, new_job, record_of_job, delete_expired_rows,
  change_retry_after, save_retry_after, change_monitor_url, save_monitor_url, new_manager,
}
use go_odata.Async.Events.{
  IsDatabase, keep_row, Event, begin, launch, go_on, cancel, end_context, expire_rows, expire_jobs,
  change_retry, save_retry, change_url, save_url, step, run_events,
}
use go_odata.Async.Invariant.{
  IsValid, try_update-IsValid, CoherentAt, IsLive, listed, open_phase, at_address-cases,
}
use go_odata.Async.Safety.{work-IsValid}
use go_odata.Async.Operations.{
  set_field-IsValid, register-IsValid, cancel_context-IsValid, cancel_job-IsValid, sweep_lem, IsNew,
  apply_options-IsNew,
}

module _ {S : Type 0} (env : Environment S) where
  module _ (law : IsDatabase env) where
    keep_row-IsLive :
        (now : Time) (ttl : ℕ) (o : Option JobRecord) → IsLive o → IsLive (keep_row now ttl o)
    keep_row-IsLive now ttl none h = h
    keep_row-IsLive now ttl (some w) h = ground arith

    delete_expired_rows-IsValid :
        (now : Time) (m : Manager S) → IsValid env m → IsValid env (delete_expired_rows env now m)
    unfolding delete_expired_rows
    delete_expired_rows-IsValid now m v = elim (Bool-cases (m.ttl == 0)) [
      | inl z ↦ rw (z, delete_expired_rows) v
      | inr z ↦ elim (Option-cases (env.delete_expired m.db now m.ttl)) [
        | inl e ↦ rw (z, e, delete_expired_rows) v
        | inr (db, e) ↦
            rw (z, e, delete_expired_rows)
              (record {
                allocated = v.allocated;
                coherent = v.coherent;
                present = v.present;
                known = v.known;
                apart = v.apart;
                rowed = λ r j h o.
                    rw (law.rows-delete_expired m.db now m.ttl j.id e)
                      (keep_row-IsLive now m.ttl (env.rows m.db j.id) (v.rowed r j h o));
              })
      ]
    ]

    change_retry_after-IsValid :
        (r : ℕ) (d : ℤ) (m : Manager S) → IsValid env m → IsValid env (change_retry_after r d m)
    unfolding change_retry_after
    change_retry_after-IsValid r d m v = elim (Option-cases (m.heap r)) [
      | inl e ↦ rw (e, change_retry_after) v
      | inr (j, e) ↦
          rw (e, change_retry_after) (set_field-IsValid env r j _ m e refl refl refl refl v)
    ]

    save_retry_after-IsValid :
        (r : ℕ) (d : ℤ) (m : Manager S) → IsValid env m → IsValid env (save_retry_after env r d m)
    unfolding save_retry_after
    save_retry_after-IsValid r d m v = elim (Option-cases (m.heap r)) [
      | inl e ↦ rw (e, save_retry_after) v
      | inr (j, e) ↦
          rw (e, save_retry_after) (try_update-IsValid env m j.id _ law v (λ k i a o y w z. z))
    ]

    change_monitor_url-IsValid :
        (r : ℕ) (url : Bytes) (m : Manager S)
        → IsValid env m
        → IsValid env (change_monitor_url r url m)
    unfolding change_monitor_url
    change_monitor_url-IsValid r url m v = elim (Option-cases (m.heap r)) [
      | inl e ↦ rw (e, change_monitor_url) v
      | inr (j, e) ↦
          rw (e, change_monitor_url) (set_field-IsValid env r j _ m e refl refl refl refl v)
    ]

    save_monitor_url-IsValid :
        (r : ℕ) (url : Bytes) (m : Manager S)
        → IsValid env m
        → IsValid env (save_monitor_url env r url m)
    unfolding save_monitor_url
    save_monitor_url-IsValid r url m v = elim (Option-cases (m.heap r)) [
      | inl e ↦ rw (e, save_monitor_url) v
      | inr (j, e) ↦
          rw (e, save_monitor_url) (try_update-IsValid env m j.id _ law v (λ k i a o y w z. z))
    ]

    module _ (m : Manager S) (j : Job) (db : S) (v : IsValid env m)
        (made : env.create m.db (record_of_job env j) ≡ some db) (n : IsNew j.id j) where
      no_other :
          (k : ℕ) (i : Job)
          → m.heap k ≡ some i
          → open_phase i.phase ≡ true
          → bytes_eq j.id i.id ≡ false
      no_other k i h o = elim (Bool-cases (bytes_eq j.id i.id)) [
        | inr y ↦ y
        | inl y ↦ absurd (
            subst IsLive
              (ap (env.rows m.db) (sym ((bytes_eq_iff j.id i.id).0 y))
                ∙ law.create_new m.db (record_of_job env j) made)
              (v.rowed k i h o))
      ]

      not_taken :
          (k : ℕ) (i : Job) → m.heap k ≡ some i → open_phase i.phase ≡ true → j.id ≡ i.id → ⊥
      not_taken k i h o e = cc (no_other k i h o, (bytes_eq_iff j.id i.id).1 e)

      allocate-IsValid : IsValid env (allocate j m db)
      allocate-IsValid = record {
        allocated = λ k i e. elim (at_address-cases env m.heap m.next j k i e) [
          | inl (a, b) ↦ omega (arith, a)
          | inr (x, d) ↦ omega (arith, v.allocated k i d)
        ];
        coherent = λ k i e. elim (at_address-cases env m.heap m.next j k i e) [
          | inl (a, b) ↦
              subst (λ y. CoherentAt y.phase y.status y.completed_at) b
                (rw n.at_start (n.is_pending, n.not_completed))
          | inr (x, d) ↦ v.coherent k i d
        ];
        present = λ k i e l. elim (at_address-cases env m.heap m.next j k i e) [
          | inl (a, b) ↦ cc (l, ap (λ (t : Job). listed t.phase) b, ap listed n.at_start)
          | inr (x, d) ↦ v.present k i d l
        ];
        known = λ id k e.
            let (i, a, b, c) = v.known id k e in
            let far : (k == m.next) ≡ false = ground (arith, v.allocated k i a) in
            (i, rw far a, b, c);
        apart = λ a b x y ha hb oa ob e. elim (at_address-cases env m.heap m.next j a x ha) [
          | inl (p, q) ↦ elim (at_address-cases env m.heap m.next j b y hb) [
            | inl (s, t) ↦ p ∙ sym s
            | inr (s, t) ↦ absurd (not_taken b y t ob (ap (λ (t : Job). t.id) q ∙ e))
          ]
          | inr (p, q) ↦ elim (at_address-cases env m.heap m.next j b y hb) [
            | inl (s, t) ↦ absurd (not_taken a x q oa (ap (λ (t : Job). t.id) t ∙ sym e))
            | inr (s, t) ↦ v.apart a b x y q t oa ob e
          ]
        ];
        rowed = λ k i e o. elim (at_address-cases env m.heap m.next j k i e) [
          | inl (p, q) ↦
              rw (law.rows-create m.db (record_of_job env j) i.id made)
                (rw ((bytes_eq_iff j.id i.id).1 (ap (λ (t : Job). t.id) q)) refl)
          | inr (p, q) ↦
              rw (law.rows-create m.db (record_of_job env j) i.id made)
                (rw (no_other k i q o) (v.rowed k i q o))
        ];
      }

    begin_job-IsValid :
        (now : Time) (id : Bytes) (os : List JobOption) (m : Manager S)
        → IsValid env m
        → IsValid env (begin_job env now id os m).0
    unfolding begin_job
    begin_job-IsValid now id os m v =
        let j = apply_options os (new_job id now) in
        let n =
          apply_options-IsNew id os (new_job id now)
            (record { same_id = refl; is_pending = refl; not_completed = refl; at_start = refl }) in
        elim (Option-cases (env.create m.db (record_of_job env j))) [
          | inl e ↦ rw (e, begin_job) v
          | inr (db, e) ↦
              rw (e, begin_job)
                (allocate-IsValid m j db v e (record {
                  same_id = refl;
                  is_pending = n.is_pending;
                  not_completed = n.not_completed;
                  at_start = n.at_start;
                }))
        ]

    pub step-IsValid : (e : Event) (m : Manager S) → IsValid env m → IsValid env (step env e m)
    unfolding step
    step-IsValid (begin now id os) m v = begin_job-IsValid now id os m v
    step-IsValid (launch r) m v = register-IsValid env r m v
    step-IsValid (go_on r now result) m v = work-IsValid env law now result r m v
    step-IsValid (cancel id) m v = cancel_job-IsValid env id m v
    step-IsValid (end_context r) m v = cancel_context-IsValid env r m v
    step-IsValid (expire_rows now) m v = delete_expired_rows-IsValid now m v
    step-IsValid (expire_jobs now) m v = rw (sweep_lem env now m v) v
    step-IsValid (change_retry r d) m v = change_retry_after-IsValid r d m v
    step-IsValid (save_retry r d) m v = save_retry_after-IsValid r d m v
    step-IsValid (change_url r url) m v = change_monitor_url-IsValid r url m v
    step-IsValid (save_url r url) m v = save_monitor_url-IsValid r url m v

    pub run_events-IsValid :
        (es : List Event) (m : Manager S) → IsValid env m → IsValid env (run_events env es m)
    unfolding run_events
    run_events-IsValid [] m v = v
    run_events-IsValid (e ∷ es) m v = run_events-IsValid es (step env e m) (step-IsValid e m v)

  pub new_manager-IsValid :
      (db : S) (disable_retention : Bool) (ttl : ℤ)
      → IsValid env (new_manager db disable_retention ttl)
  unfolding new_manager find
  new_manager-IsValid db b ttl = record {
    allocated = λ r j h. cc;
    coherent = λ r j h. absurd (cc);
    present = λ r j h l. cc;
    known = λ id r h. absurd (cc);
    apart = λ r k j i h g a b c. cc;
    rowed = λ r j h o. absurd (cc);
  }

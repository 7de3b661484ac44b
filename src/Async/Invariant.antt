-- ===== src/Async/Invariant.antt =====
-- internal/async/manager.go: what holds of the manager's map, jobs and records between two steps.
use go_odata.Prelude.{
  ℕ, ◌<◌, Bool, true, false, Option, none, some, Bytes, ◌≡◌, refl, sym, ap, ◌∙◌, arith, find, ◌⊎◌,
  subst, Option-cases, ◌==◌, ==_iff, if◌then◌else◌, Bool-cases, inl, inr, bytes_eq,
}
use go_odata.Async.Records.{
  Time, Environment, JobRecord, Job, Phase, created, waiting, marked, handling, returned, unsaved,
  done, is_terminal, JobStatus, pending, running,
}
use go_odata.Async.Manager.{Manager, set_job, at_address, try_update}
use go_odata.Async.Events.{IsDatabase, change_row}

-- The phases in which the map holds the job, and those in which its record is not completed.
abbrev pub listed : Phase → Bool
listed waiting = true
listed (marked t) = true
listed handling = true
listed (returned o) = true
listed _ = false

abbrev pub open_phase : Phase → Bool
open_phase done = false
open_phase _ = true

abbrev pub is_some {ℓ} : {A : Type ℓ} → Option A → Bool
is_some none = false
is_some (some a) = true

-- The status and the completion of a job, by the place of its goroutine.
abbrev pub CoherentAt : Phase → JobStatus → Option Time → Type 0
CoherentAt created s c = (s ≡ pending) × (c ≡ none)
CoherentAt waiting s c = (s ≡ pending) × (c ≡ none)
CoherentAt (marked t) s c = (s ≡ running) × (c ≡ none)
CoherentAt handling s c = (s ≡ running) × (c ≡ none)
CoherentAt (returned o) s c = (s ≡ running) × (c ≡ none) × (is_terminal o.status ≡ true)
CoherentAt (unsaved k) s c = (is_terminal s ≡ true) × (is_some c ≡ true)
CoherentAt done s c = (is_terminal s ≡ true) × (is_some c ≡ true)

pub listed-open_phase : (p : Phase) → listed p ≡ true → open_phase p ≡ true
listed-open_phase done h = cc
listed-open_phase _ h = refl

-- A record that is there and not completed.
abbrev pub IsLive : Option JobRecord → Type 0
IsLive none = ⊥
IsLive (some r) = r.completed_at ≡ none

module _ {S : Type 0} (env : Environment S) where
  pub record IsValid (m : Manager S) : Type 0 where
    pub allocated : (r : ℕ) (j : Job) → m.heap r ≡ some j → r < m.next
    pub coherent :
        (r : ℕ) (j : Job) → m.heap r ≡ some j → CoherentAt j.phase j.status j.completed_at
    pub present :
        (r : ℕ) (j : Job) → m.heap r ≡ some j → listed j.phase ≡ true → find j.id m.jobs ≡ some r
    pub known :
        (id : Bytes) (r : ℕ)
        → find id m.jobs ≡ some r
        → (j : Job) × (m.heap r ≡ some j) × (j.id ≡ id) × (listed j.phase ≡ true)
    pub apart :
        (r k : ℕ) (j i : Job)
        → m.heap r ≡ some j
        → m.heap k ≡ some i
        → open_phase j.phase ≡ true
        → open_phase i.phase ≡ true
        → j.id ≡ i.id
        → r ≡ k
    pub rowed :
        (r : ℕ) (j : Job)
        → m.heap r ≡ some j
        → open_phase j.phase ≡ true
        → IsLive (env.rows m.db j.id)

  IsLive-change_row :
      (id other : Bytes) (f : JobRecord → JobRecord) (o : Option JobRecord)
      → IsLive o
      → (bytes_eq id other ≡ true
          → (w : JobRecord) → w.completed_at ≡ none
          → (f w).completed_at ≡ none)
      → IsLive (if bytes_eq id other then change_row f o else o)
  IsLive-change_row id other f none h k = elim h [ ]
  IsLive-change_row id other f (some w) h k = elim (Bool-cases (bytes_eq id other)) [
    | inl e ↦ rw e (k e w h)
    | inr e ↦ rw e h
  ]

  -- A change of one job that does not move it into or out of the map.
  pub record Follows (j j' : Job) : Type 0 where
    pub same_id : j'.id ≡ j.id
    pub same_listed : listed j'.phase ≡ listed j.phase
    pub still_open : open_phase j'.phase ≡ true → open_phase j.phase ≡ true
    pub follows_coherent : CoherentAt j'.phase j'.status j'.completed_at

  pub at_address-cases :
      (heap : ℕ → Option Job) (r : ℕ) (j : Job) (k : ℕ) (i : Job)
      → at_address heap r j k ≡ some i
      → ((k ≡ r) × (j ≡ i)) ⊎ (((k == r) ≡ false) × (heap k ≡ some i))
  at_address-cases heap r j k i e = elim (Bool-cases (k == r)) [
    | inl h ↦ inl ((==_iff k r).0 h, ground (arith, e, h))
    | inr h ↦ inr (h, ground (arith, e, h))
  ]

  module _ (m : Manager S) (r : ℕ) (j j' : Job) (v : IsValid m) (h : m.heap r ≡ some j) where
    -- The job that stood at an address before the change.
    pub former :
        j'.id ≡ j.id
        → (open_phase j'.phase ≡ true → open_phase j.phase ≡ true)
        → (k : ℕ) (i : Job) → at_address m.heap r j' k ≡ some i
        → (i0 : Job) × (m.heap k ≡ some i0)
          × (i.id ≡ i0.id)
          × (open_phase i.phase ≡ true → open_phase i0.phase ≡ true)
    former same still k i e = elim (at_address-cases m.heap r j' k i e) [
      | inl (a, b) ↦ (j, cc, cc, λ o. still (cc))
      | inr (n, c) ↦ (i, c, refl, λ o. o)
    ]

    pub coherent_later :
        CoherentAt j'.phase j'.status j'.completed_at
        → (k : ℕ) (i : Job) → at_address m.heap r j' k ≡ some i
        → CoherentAt i.phase i.status i.completed_at
    coherent_later f k i e = elim (at_address-cases m.heap r j' k i e) [
      | inl (a, b) ↦ subst (λ x. CoherentAt x.phase x.status x.completed_at) b f
      | inr (n, c) ↦ v.coherent k i c
    ]

    pub apart_later :
        j'.id ≡ j.id
        → (open_phase j'.phase ≡ true → open_phase j.phase ≡ true)
        → (a b : ℕ) (x y : Job) → at_address m.heap r j' a ≡ some x
        → at_address m.heap r j' b ≡ some y
        → open_phase x.phase ≡ true
        → open_phase y.phase ≡ true
        → x.id ≡ y.id
        → a ≡ b
    apart_later same still a b x y ha hb oa ob e =
        let (x0, hx, ex, ox) = former same still a x ha in
        let (y0, hy, ey, oy) = former same still b y hb in
        v.apart a b x0 y0 hx hy (ox oa) (oy ob) (sym ex ∙ e ∙ ey)

    pub rowed_later :
        j'.id ≡ j.id
        → (open_phase j'.phase ≡ true → open_phase j.phase ≡ true)
        → (k : ℕ) (i : Job) → at_address m.heap r j' k ≡ some i
        → open_phase i.phase ≡ true
        → IsLive (env.rows m.db i.id)
    rowed_later same still k i e o =
        let (i0, a, b, d) = former same still k i e in rw b (v.rowed k i0 a (d o))

    pub allocated_later :
        j'.id ≡ j.id
        → (open_phase j'.phase ≡ true → open_phase j.phase ≡ true)
        → (k : ℕ) (i : Job) → at_address m.heap r j' k ≡ some i
        → k < m.next
    allocated_later same still k i e =
        let (i0, a, b, d) = former same still k i e in v.allocated k i0 a

    present_later :
        Follows j j'
        → (k : ℕ) (i : Job) → at_address m.heap r j' k ≡ some i
        → listed i.phase ≡ true
        → find i.id m.jobs ≡ some k
    present_later f k i e l = elim (at_address-cases m.heap r j' k i e) [
      | inl (a, b) ↦
          let this : i.id ≡ j.id = ap (λ (x : Job). x.id) (sym b) ∙ f.same_id in
          let on : listed j.phase ≡ true =
            sym f.same_listed ∙ ap (λ (x : Job). listed x.phase) b ∙ l in
          rw (this, a) (v.present r j h on)
      | inr (n, c) ↦ v.present k i c l
    ]

    known_later :
        Follows j j'
        → (id : Bytes) (k : ℕ) → find id m.jobs ≡ some k
        → (i : Job) × (at_address m.heap r j' k ≡ some i) × (i.id ≡ id) × (listed i.phase ≡ true)
    known_later f id k e =
        let (i, a, b, c) = v.known id k e in
        elim (Bool-cases (k == r)) [
          | inl y ↦
              let same : i ≡ j = cc (a, h, (==_iff k r).0 y) in
              (
                j',
                rw y refl,
                f.same_id ∙ ap (λ (x : Job). x.id) (sym same) ∙ b,
                f.same_listed ∙ ap (λ (x : Job). listed x.phase) (sym same) ∙ c,
              )
          | inr n ↦ (i, rw n a, b, c)
        ]

    pub set_job-IsValid : Follows j j' → IsValid (set_job r j' m)
    set_job-IsValid f = record {
      allocated = allocated_later f.same_id f.still_open;
      coherent = coherent_later f.follows_coherent;
      present = present_later f;
      known = known_later f;
      apart = apart_later f.same_id f.still_open;
      rowed = rowed_later f.same_id f.still_open;
    }

  -- A write to the database that completes no record of an open job.
  pub try_update-IsValid :
      (m : Manager S) (id : Bytes) (f : JobRecord → JobRecord)
      → IsDatabase env
      → IsValid m
      → ((r : ℕ) (j : Job)
          → m.heap r ≡ some j
          → open_phase j.phase ≡ true
          → bytes_eq id j.id ≡ true
          → (w : JobRecord) → w.completed_at ≡ none
          → (f w).completed_at ≡ none)
      → IsValid (try_update env id f m)
  try_update-IsValid m id f law v keeps = elim (Option-cases (env.update m.db id f)) [
    | inl e ↦ rw (e, try_update) v
    | inr (db, e) ↦
        rw (e, try_update)
          (record {
            allocated = v.allocated;
            coherent = v.coherent;
            present = v.present;
            known = v.known;
            apart = v.apart;
            rowed = λ r j h o. rw (law.rows-update m.db id f j.id e) (
                IsLive-change_row id j.id f (env.rows m.db j.id) (v.rowed r j h o) (keeps r j h o));
          })
  ]

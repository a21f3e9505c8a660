-- ===== src/Module/Loading/Enough.antt =====
-- Fuel for `load_modules_unlocked`: the names without an entry among those that can be reached.
use ignited.Prelude.{
  ℕ, zero, suc, ◌+◌, ◌-◌, ◌≤◌, ◌<◌, String, true, ◌≡◌, refl, inl, inr, Option, none, some, List, [],
  ◌∷◌, ◌++◌, ◌==◌, eq_iff, eq_refl, arith, All, Option-cases, Bool-cases, if◌then◌else◌,
}
use ignited.Prelude.Assoc
use ignited.Prelude.Assoc.{Map, get-put}
use ignited.Config.Runtime.{InitramfsMetadata}
use ignited.Module.Loading.Fuel.{load_modules_unlocked-more}
use ignited.Module.Loading.{
  Loader, contains, is_skipped, deps_of, record_handle, fresh_group, spawn, load_one, load_each,
  load_modules_unlocked,
}

abbrev pub absent : Option (List ℕ) → ℕ
absent none = 1
absent (some v) = 0

-- The names of a list that have no entry.
unfoldable pub missing : Map (List ℕ) → List String → ℕ
missing l [] = 0
missing l (u ∷ us) = absent (Assoc.get l u) + missing l us

-- Setting an entry takes its name off.
absent-put :
    (l : Map (List ℕ)) (m u : String) (v : List ℕ)
    → absent (Assoc.get (Assoc.put l m v) u) ≡ (if m == u then 0 else absent (Assoc.get l u))
absent-put l m u v = elim (Bool-cases (m == u)) [
  | inl e ↦ rw (get-put l m u v, e)
  | inr e ↦ rw (get-put l m u v, e)
]

missing-put_le :
    (l : Map (List ℕ)) (m : String) (v : List ℕ) (us : List String)
    → missing (Assoc.put l m v) us ≤ missing l us
unfolding missing
missing-put_le l m v [] = ground arith
missing-put_le l m v (u ∷ us) = ground (arith, missing-put_le l m v us, absent-put l m u v)

missing-put_lt :
    (l : Map (List ℕ)) (m : String) (v : List ℕ) (us : List String)
    → contains us m ≡ true
    → Assoc.get l m ≡ none
    → missing (Assoc.put l m v) us < missing l us
unfolding missing contains
missing-put_lt l m v [] h vacant = cc
missing-put_lt l m v (u ∷ us) h vacant = elim (Bool-cases (u == m)) [
  | inl e ↦
      let same = (eq_iff u m).0 e in
      let before : absent (Assoc.get l u) ≡ 1 = rw (same, vacant) in
      let after : absent (Assoc.get (Assoc.put l m v) u) ≡ 0 =
        rw (same, absent-put l m m v, eq_refl m) in
      ground (arith, missing-put_le l m v us, before, after)
  | inr e ↦ ground (arith, missing-put_lt l m v us (rw e at h) vacant, absent-put l m u v)
]

module _ (meta : InitramfsMetadata) (reachable : List String) where
  -- A call returns, and no entry is taken away.
  abbrev Returns : List String → Loader → Option Loader → Type 0
  Returns ms st o =
      (st' : Loader) × (o ≡ some st')
      × (missing st'.inner.loading reachable ≤ missing st.inner.loading reachable)

  -- Given any list of reachable names and fewer missing entries than its bound.
  abbrev IsEnough : ℕ → (List String → ℕ → Loader → Option Loader) → Type 0
  IsEnough n f =
      (ms : List String) (w : ℕ) (st : Loader)
      → All (λ m. contains reachable m ≡ true) ms
      → missing st.inner.loading reachable < n
      → Returns ms st (f ms w st)

  -- The dependencies of a reachable name are reachable.
  abbrev pub IsClosed : Type 0
  IsClosed =
      (m : String)
      → contains reachable m ≡ true
      → All (λ d. contains reachable d ≡ true) (deps_of meta m)

  load_one-Returns :
      (n : ℕ) (f : List String → ℕ → Loader → Option Loader) (m : String) (w : ℕ) (st : Loader)
      → IsClosed
      → IsEnough n f
      → contains reachable m ≡ true
      → missing st.inner.loading reachable < suc n
      → Returns (m ∷ []) st (load_one meta f m w st)
  unfolding load_one
  load_one-Returns n f m w st closed enough there h = elim (Bool-cases (is_skipped meta st m)) [
    | inl skip ↦ (st, rw (load_one, skip), ground arith)
    | inr other ↦ elim (Option-cases (Assoc.get st.inner.loading m)) [
      | inr (wgs, kept) ↦ (
        record_handle meta st m (wgs ++ w ∷ []),
        rw (load_one, other, kept),
        missing-put_le st.inner.loading m _ reachable,
      )
      | inl vacant ↦
          let fewer = missing-put_lt st.inner.loading m (w ∷ []) reachable there vacant in
          let (st2, e, le) =
            enough (deps_of meta m) st.next_wg (fresh_group meta (record_handle meta st m (w ∷ [])))
              (closed m there) (ground (arith, fewer)) in
          (
            spawn meta m st.next_wg w st2,
            rw (load_one, other, vacant, e),
            ground (arith, le, fewer),
          )
    ]
  ]

  load_each-Returns :
      (n : ℕ) (f : List String → ℕ → Loader → Option Loader)
      → IsClosed
      → IsEnough n f
      → IsEnough (suc n) (load_each meta f)
  unfolding load_each
  load_each-Returns n f closed enough [] w st all h = (st, refl, ground arith)
  load_each-Returns n f closed enough (m ∷ ms) w st (one, all) h =
      let (st1, e, le) = load_one-Returns n f m w st closed enough one h in
      let (st2, e2, le2) =
        load_each-Returns n f closed enough ms w st1 all (ground (arith, le, h)) in
      (st2, rw (e, e2), ground (arith, le, le2))

  load_modules_unlocked-IsEnough : IsClosed → (n : ℕ) → IsEnough n (load_modules_unlocked meta n)
  unfolding load_modules_unlocked
  load_modules_unlocked-IsEnough closed zero ms w st all h = ground (arith, h)
  load_modules_unlocked-IsEnough closed (suc n) ms w st all h =
      load_each-Returns n (load_modules_unlocked meta n) closed
        (load_modules_unlocked-IsEnough closed n) ms w st all h

  -- Over a finite set of names that is closed under dependencies, cyclic or not, the recursion of
  -- `load_modules_unlocked` ends: fuel above the number of names without an entry is enough, and
  -- however much more there is, the result is the one that the least such fuel gives.
  pub load_modules_unlocked_returns :
      (n : ℕ) (ms : List String) (w : ℕ) (st : Loader)
      → IsClosed
      → All (λ m. contains reachable m ≡ true) ms
      → missing st.inner.loading reachable < n
      → (st' : Loader) × (load_modules_unlocked meta n ms w st ≡ some st')
        × (load_modules_unlocked meta (suc (missing st.inner.loading reachable)) ms w st ≡ some st')
  load_modules_unlocked_returns n ms w st closed all h =
      let least = suc (missing st.inner.loading reachable) in
      let (st', e, le) = load_modules_unlocked-IsEnough closed least ms w st all (omega arith) in
      (st', load_modules_unlocked-more meta (n - least) least n ms w st st' (omega arith) e, e)

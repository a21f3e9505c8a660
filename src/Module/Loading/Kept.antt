-- ===== src/Module/Loading/Kept.antt =====
-- Which groups are kept for which modules, and how setting an entry changes that.
use ignited.Prelude.{
  ℕ, String, ◌≡◌, refl, ap, sym, ◌∙◌, ◌⊎◌, inl, inr, none, List, [], ◌∷◌, ◌++◌, ◌==◌, eq_iff,
  eq_refl, arith, unwrap_or, Bool-cases, if◌then◌else◌,
}
use ignited.Prelude.Assoc
use ignited.Prelude.Assoc.{get-put}
use ignited.Config.Runtime.{InitramfsMetadata}
use ignited.Module.Loading.{Loader, handles, record_handle, fresh_group}

abbrev pub In : ℕ → List ℕ → Type 0
In w [] = ⊥
In w (v ∷ vs) = (w ≡ v) ⊎ In w vs

pub In-append_left : (w : ℕ) (vs us : List ℕ) → In w vs → In w (vs ++ us)
In-append_left w [] us h = absurd h
In-append_left w (v ∷ vs) us (inl e) = inl e
In-append_left w (v ∷ vs) us (inr h) = inr (In-append_left w vs us h)

pub In-append_last : (w : ℕ) (vs : List ℕ) → In w (vs ++ w ∷ [])
In-append_last w [] = inl refl
In-append_last w (v ∷ vs) = inr (In-append_last w vs)

pub In-append_cases : (v : ℕ) (vs us : List ℕ) → In v (vs ++ us) → In v vs ⊎ In v us
In-append_cases v [] us h = inr h
In-append_cases v (x ∷ vs) us (inl e) = inl (inl e)
In-append_cases v (x ∷ vs) us (inr h) = elim (In-append_cases v vs us h) [
  | inl a ↦ inl (inr a)
  | inr b ↦ inr b
]

-- A clone of the group is kept for the module.
abbrev pub Holds : Loader → String → ℕ → Type 0
Holds st m w = In w (handles st m)

-- Nothing that was kept is given up, and no module becomes loaded.
pub record Extends (st st' : Loader) : Type 0 where
  pub same_loaded : st'.inner.loaded ≡ st.inner.loaded
  pub keeps : (m : String) (w : ℕ) → Holds st m w → Holds st' m w

pub Extends-refl : (st : Loader) → Extends st st
Extends-refl st = record { same_loaded = refl; keeps = λ m w h. h }

pub Extends-trans : {a b c : Loader} → Extends a b → Extends b c → Extends a c
Extends-trans f g = record {
  same_loaded = g.same_loaded ∙ f.same_loaded;
  keeps = λ m w h. g.keeps m w (f.keeps m w h);
}

pub handles-record_handle :
    (meta : InitramfsMetadata) (st : Loader) (m x : String) (wgs : List ℕ)
    → handles (record_handle meta st m wgs) x ≡ (if m == x then wgs else handles st x)
handles-record_handle meta st m x wgs = ground (arith, get-put st.inner.loading m x wgs)

module _ (meta : InitramfsMetadata) where
  -- Setting an entry to a list that extends it.
  pub record_handle-Extends :
      (st : Loader) (m : String) (wgs : List ℕ)
      → ((w : ℕ) → Holds st m w → In w wgs)
      → Extends st (record_handle meta st m wgs)
  record_handle-Extends st m wgs more = record {
    same_loaded = refl;
    keeps = λ x w h. elim (Bool-cases (m == x)) [
      | inl e ↦
          rw (handles-record_handle meta st m x wgs, e) (more w (rw (sym ((eq_iff m x).0 e)) at h))
      | inr e ↦ rw (handles-record_handle meta st m x wgs, e) h
    ];
  }

  pub record_handle_self :
      (st : Loader) (m : String) (wgs : List ℕ) → handles (record_handle meta st m wgs) m ≡ wgs
  record_handle_self st m wgs = rw (handles-record_handle meta st m m wgs, eq_refl m)

  pub entry-Extends :
      (st : Loader) (m : String) (w : ℕ)
      → Assoc.get st.inner.loading m ≡ none
      → Extends st (fresh_group meta (record_handle meta st m (w ∷ [])))
  entry-Extends st m w vacant =
      let x : Extends st (record_handle meta st m (w ∷ [])) =
        record_handle-Extends st m (w ∷ [])
          (λ v i. absurd (rw (ap (λ o. unwrap_or o []) vacant) at i)) in
      record { same_loaded = x.same_loaded; keeps = x.keeps }

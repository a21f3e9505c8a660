-- ===== src/Util/Systemd.antt =====
-- `is_systemd_compatible` of src/util.rs. The links of the file system are a parameter.
use mathlib.Core.Path.{subst}
use mathlib.Core.Option.{some-injective}
use ignited.Prelude.{
  ℕ, zero, suc, String, Bool, true, false, ◌&&◌, ◌≡◌, ◌≤◌, ◌⊎◌, inl, inr, ◌↔◌, refl, sym, ap,
  Option-cases, Option, none, some, List, [], ◌∷◌, ◌==◌, eq_iff, arith, unwrap_or,
}
use ignited.Mount.Mounting.{FilePath}

-- `Path::read_link` and `Path::canonicalize`, where they succeed.
pub record Links : Type 0 where
  pub read_link : FilePath → Option FilePath
  pub canonicalize : FilePath → Option FilePath

-- The components of a path, the last first.
pub data Component : Type 0 where
  root_dir : Component
  normal : String → Component

abbrev pub root_of : Bool → List Component
root_of true = root_dir ∷ []
root_of false = []

abbrev pub components : Bool → List String → List Component
components absolute [] = root_of absolute
components absolute (x ∷ xs) = normal x ∷ components absolute xs

abbrev same_component : Component → Component → Bool
same_component root_dir root_dir = true
same_component (normal x) (normal y) = x == y
same_component _ _ = false

-- Whether the components of the second list come first in the first.
abbrev pub begins : List Component → List Component → Bool
begins cs [] = true
begins [] (d ∷ ds) = false
begins (c ∷ cs) (d ∷ ds) = same_component c d && begins cs ds

-- `Path::ends_with` compares whole components.
unfoldable pub ends_with : FilePath → FilePath → Bool
ends_with p q = begins (components p.absolute p.names) (components q.absolute q.names)

-- `/systemd`
abbrev pub systemd : FilePath
systemd = record { absolute = true; names = "systemd" ∷ [] }

module _ (l : Links) where
  -- The loop over 0..10, which a path that is no link ends.
  unfoldable pub follow : ℕ → FilePath → FilePath
  follow zero p = p
  follow (suc n) p = elim (l.read_link p) [ none ↦ p | some new ↦ follow n new ]

  unfoldable pub resolve : FilePath → FilePath
  unfolding follow
  resolve p = let q = follow 10 p in unwrap_or (l.canonicalize q) q

  unfoldable pub is_systemd_compatible : FilePath → Bool
  unfolding resolve ends_with
  is_systemd_compatible p = ends_with (resolve p) systemd

ends_with_systemd :
    (absolute : Bool) (names : List String)
    → ends_with (record { absolute = absolute; names = names }) systemd ≡ true
    → ◌≡◌ {A = FilePath} (record { absolute = absolute; names = names }) systemd
unfolding ends_with
ends_with_systemd true [] h = cc
ends_with_systemd false [] h = cc
ends_with_systemd true (x ∷ []) h = ground (arith, eq_iff x "systemd")
ends_with_systemd false (x ∷ []) h = ground (arith, eq_iff x "systemd")
ends_with_systemd absolute (x ∷ y ∷ ys) h = ground (arith, eq_iff x "systemd")

module _ (l : Links) where
  -- A path leads over that many links to another.
  pub data Leads : ℕ → FilePath → FilePath → Type 0 where
    there : {p : FilePath} → Leads 0 p p
    link : {n : ℕ} {p q r : FilePath} → l.read_link p ≡ some q → Leads n q r → Leads (suc n) p r

  -- The end of the links, or of the first ones up to a bound.
  pub record EndsAt (bound : ℕ) (p q : FilePath) : Type 0 where
    pub links : ℕ
    pub few : links ≤ bound
    pub leads : Leads links p q
    pub stops : (links ≡ bound) ⊎ (l.read_link q ≡ none)

  follow-EndsAt : (bound : ℕ) (p : FilePath) → EndsAt bound p (follow l bound p)
  unfolding follow
  follow-EndsAt zero p = record { links = 0; few = omega arith; leads = there; stops = inl refl }
  follow-EndsAt (suc n) p = elim (Option-cases (l.read_link p)) [
    | inl plain ↦
        subst (EndsAt (suc n) p) (sym (rw (follow, plain) refl))
          (record { links = 0; few = omega arith; leads = there; stops = inr plain })
    | inr (q, linked) ↦
        let e = follow-EndsAt n q in
        subst (EndsAt (suc n) p) (sym (rw (follow, linked) refl)) (record {
          links = suc e.links;
          few = let le = e.few in omega arith;
          leads = link linked e.leads;
          stops = elim e.stops [ inl same ↦ inl (ap suc same) | inr plain ↦ inr plain ];
        })
  ]

  follow-Leads :
      {n : ℕ} {p q : FilePath} (bound : ℕ)
      → n ≤ bound
      → Leads n p q
      → (n ≡ bound) ⊎ (l.read_link q ≡ none)
      → follow l bound p ≡ q
  unfolding follow
  follow-Leads zero le there stops = refl
  follow-Leads (suc bound) le there (inl same) = absurd (omega arith)
  follow-Leads (suc bound) le there (inr plain) = rw (follow, plain) refl
  follow-Leads zero le (link linked rest) stops = absurd (omega arith)
  follow-Leads (suc bound) le (link linked rest) stops =
      rw (follow, linked)
        (follow-Leads bound (omega arith) rest
          (elim stops [ inl same ↦ inl (omega arith) | inr plain ↦ inr plain ]))

  -- Behind at most ten links and the canonical form, where there is one, a path is `/systemd`.
  pub record LeadsToSystemd (p : FilePath) : Type 0 where
    pub target : FilePath
    pub ends : EndsAt 10 p target
    pub canonical :
        (l.canonicalize target ≡ some systemd)
        ⊎ ((l.canonicalize target ≡ none) × (target ≡ systemd))

  unwrap_or-systemd :
      (o : Option FilePath) (q : FilePath)
      → (unwrap_or o q ≡ systemd) ↔ ((o ≡ some systemd) ⊎ ((o ≡ none) × (q ≡ systemd)))
  unwrap_or-systemd none q = (λ e. inr (refl, e), λ h. elim h [ inl e ↦ cc | inr (e, same) ↦ same ])
  unwrap_or-systemd (some r) q = (
    λ e. inl (ap some e),
    λ h. elim h [ inl e ↦ some-injective r systemd e | inr (e, same) ↦ cc ],
  )

  -- An init is taken for systemd exactly if its path, behind its links, but no more than the first
  -- ten, and behind its canonical form if it has one, is `/systemd` in the root directory itself:
  -- never if they lead into any directory below it, such as `/usr/lib/systemd/systemd`.
  pub is_systemd_compatible_iff :
      (p : FilePath) → (is_systemd_compatible l p ≡ true) ↔ LeadsToSystemd p
  unfolding is_systemd_compatible resolve
  is_systemd_compatible_iff p =
      let q = follow l 10 p in
      (
        λ h. record {
          target = q;
          ends = follow-EndsAt 10 p;
          canonical =
              (unwrap_or-systemd (l.canonicalize q) q).0
                (ends_with_systemd (resolve l p).absolute (resolve l p).names h);
        },
        λ h.
            let e = h.ends in
            let same : q ≡ h.target = follow-Leads 10 e.few e.leads e.stops in
            let resolved : resolve l p ≡ systemd =
              rw same ((unwrap_or-systemd (l.canonicalize h.target) h.target).1 h.canonical) in
            rw resolved refl,
      )

-- ===== src/Util/Sanity.antt =====
-- `initial_sanity_check` and `full_sanity_check` of src/util.rs. What the system answers about the
-- process and its files is a parameter.
use ignited.Prelude.{
  ℕ, String, Bool, true, not, ◌≡◌, ◌≢◌, ◌↔◌, ◌⊎◌, inl, inr, refl, ap, ◌∙◌, arith, eqb, eqb_iff,
  Bool-cases, if◌then◌else◌,
}
use ignited.Prelude.Text.{◌⧺◌}
use ignited.Prelude.Outcome.{Outcome, ok, err, panic, ◌>>◌, >>-eq-ok}

-- `getpid`, `Path::exists`, the device of `stat`, and the type of `statfs`.
pub record Machine : Type 0 where
  pub pid : ℕ
  pub exists : String → Bool
  pub stat_dev : String → Outcome ℕ
  pub statfs_type : String → Outcome ℕ

abbrev pub ramfs_magic : ℕ
ramfs_magic = 0x858458f6

abbrev pub tmpfs_magic : ℕ
tmpfs_magic = 0x01021994

-- `.then(|| ()).ok_or_else(…)`
abbrev pub require : Bool → String → Outcome (Unit {0})
require b e = if b then ok tt else err e

abbrev not_initrd : String
not_initrd = "not running in an initrd environment, exiting..."

unfoldable pub initial_sanity_check : Machine → Outcome (Unit {0})
initial_sanity_check m =
    require (eqb m.pid 1) not_initrd >> require (m.exists "/etc/initrd-release") not_initrd

-- `stat_fn(path).printable(…)?`
abbrev pub with_dev {ℓ} : {A : Type ℓ} → Outcome ℕ → String → (ℕ → Outcome A) → Outcome A
with_dev (ok dev) e f = f dev
with_dev (err io) e f = err e
with_dev panic e f = panic

unfoldable pub exists_in_root : Machine → String → ℕ → Outcome (Unit {0})
exists_in_root m path root_dev =
    with_dev (m.stat_dev path) ("unable to stat " ⧺ path)
      (λ dev. require (eqb dev root_dev) (path ⧺ " is not in our current initramfs"))

abbrev pub target_root : String
target_root = "/system_root"

abbrev pub config_path : String
config_path = "/etc/ignited/engine.toml"

abbrev is_ramfs : ℕ → Bool
is_ramfs type = if eqb type ramfs_magic then true else eqb type tmpfs_magic

-- From the device of the root on.
abbrev checks : Machine → ℕ → Outcome (Unit {0})
checks m root_dev =
    with_dev (m.stat_dev target_root) ("unable to stat " ⧺ target_root) (λ dev.
      require (not (eqb dev root_dev)) ("/ and " ⧺ target_root ⧺ " belong to the same device"))
    >> exists_in_root m "/etc/initrd-release" root_dev
    >> exists_in_root m config_path root_dev
    >> exists_in_root m "/init" root_dev
    >> with_dev (m.statfs_type "/") "unable to statfs /" (λ type.
      require (is_ramfs type) "/ should still be initramfs, but is not of type ramfs/tmpfs")

abbrev then_ok : ℕ → Outcome (Unit {0}) → Outcome ℕ
then_ok dev (ok u) = ok dev
then_ok dev (err e) = err e
then_ok dev panic = panic

unfoldable pub full_sanity_check : Machine → Outcome ℕ
unfolding exists_in_root
full_sanity_check m = elim (require (eqb m.pid 1) not_initrd) [
  | ok u ↦
      with_dev (m.stat_dev "/") "unable to stat /"
        (λ root_dev. then_ok root_dev (checks m root_dev))
  | err e ↦ err e
  | panic ↦ panic
]

-- What has to be so: the process is the first, the new root is mounted on another device, the files
-- of the initramfs are on that of the root, and the root is a ramfs or a tmpfs.
pub record IsInitramfs (m : Machine) (root_dev : ℕ) : Type 0 where
  pub first : m.pid ≡ 1
  pub root : m.stat_dev "/" ≡ ok root_dev
  pub new_dev : ℕ
  pub new_root : m.stat_dev target_root ≡ ok new_dev
  pub other_device : new_dev ≢ root_dev
  pub release : m.stat_dev "/etc/initrd-release" ≡ ok root_dev
  pub config : m.stat_dev config_path ≡ ok root_dev
  pub init : m.stat_dev "/init" ≡ ok root_dev
  pub type : ℕ
  pub typed : m.statfs_type "/" ≡ ok type
  pub in_memory : (type ≡ ramfs_magic) ⊎ (type ≡ tmpfs_magic)

require_ok : (b : Bool) (e : String) → require b e ≡ ok tt → b ≡ true
require_ok b e h = ground arith

with_dev_ok {ℓ} :
    {A : Type ℓ} (o : Outcome ℕ) (e : String) (f : ℕ → Outcome A) {a : A}
    → with_dev o e f ≡ ok a
    → (dev : ℕ) × (o ≡ ok dev) × (f dev ≡ ok a)
with_dev_ok (ok dev) e f h = (dev, refl, h)
with_dev_ok (err io) e f h = cc
with_dev_ok panic e f h = cc

then_ok_ok :
    (dev : ℕ) (r : Outcome (Unit {0})) {d : ℕ} → then_ok dev r ≡ ok d → (r ≡ ok tt) × (dev ≡ d)
then_ok_ok dev (ok u) h = (refl, ground arith)
then_ok_ok dev (err e) h = cc
then_ok_ok dev panic h = cc

exists_in_root_ok :
    (m : Machine) (path : String) (root_dev : ℕ)
    → exists_in_root m path root_dev ≡ ok tt
    → m.stat_dev path ≡ ok root_dev
unfolding exists_in_root
exists_in_root_ok m path root_dev h =
    let (dev, found, same) = with_dev_ok (m.stat_dev path) _ _ h in
    found ∙ ap ok ((eqb_iff dev root_dev).0 (require_ok _ _ same))

checks_ok :
    (m : Machine) (root_dev : ℕ)
    → m.pid ≡ 1
    → m.stat_dev "/" ≡ ok root_dev
    → checks m root_dev ≡ ok tt
    → IsInitramfs m root_dev
checks_ok m root_dev one at h =
    let (h4, h5) = >>-eq-ok _ _ h in
    let (h3, at_init) = >>-eq-ok _ _ h4 in
    let (h2, at_config) = >>-eq-ok _ _ h3 in
    let (h1, at_release) = >>-eq-ok _ _ h2 in
    let (dev, found, other) = with_dev_ok (m.stat_dev target_root) _ _ h1 in
    let (type, typed, memory) = with_dev_ok (m.statfs_type "/") _ _ h5 in
    record {
      first = one;
      root = at;
      new_dev = dev;
      new_root = found;
      other_device = ground (arith, require_ok _ _ other);
      release = exists_in_root_ok m _ root_dev at_release;
      config = exists_in_root_ok m _ root_dev at_config;
      init = exists_in_root_ok m _ root_dev at_init;
      type = type;
      typed = typed;
      in_memory = ground (arith, require_ok _ _ memory);
    }

sound : (m : Machine) (root_dev : ℕ) → full_sanity_check m ≡ ok root_dev → IsInitramfs m root_dev
unfolding full_sanity_check
sound m root_dev h = elim (Bool-cases (eqb m.pid 1)) [
  | inl one ↦
      let (dev, at, rest) = with_dev_ok (m.stat_dev "/") _ _ (rw (full_sanity_check, one) at h) in
      let (checked, same) = then_ok_ok dev (checks m dev) rest in
      checks_ok m root_dev ((eqb_iff m.pid 1).0 one) (at ∙ ap ok same) (rw same at checked)
  | inr other ↦ absurd (ground arith)
]

complete : (m : Machine) (root_dev : ℕ) → IsInitramfs m root_dev → full_sanity_check m ≡ ok root_dev
unfolding full_sanity_check
complete m root_dev i = ground arith

-- The check succeeds with a device exactly if all of that is so and it is the device of the root.
pub full_sanity_check_iff :
    (m : Machine) (root_dev : ℕ) → (full_sanity_check m ≡ ok root_dev) ↔ IsInitramfs m root_dev
full_sanity_check_iff m root_dev = (sound m root_dev, complete m root_dev)

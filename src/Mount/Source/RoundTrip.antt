-- ===== src/Mount/Source/RoundTrip.antt =====
-- Reading a written partition source back.
use Prim.Native.String.{[], ◌∷◌}
use mathlib.Core.Option.{some-injective}
use mathlib.Core.Path.{subst}
use ignited.Prelude.{String, ◌≡◌, refl, false, some, arith}
use ignited.Prelude.Text.{◌⧺◌, has, strip_prefix}
use ignited.Prelude.Text.Laws.{split_once_at-append, split_once_at_of_lacks}
use ignited.Prelude.Text.Number.{ℤ, pos, negsuc, i64_from_str}
use ignited.Prelude.Text.Number.Signed.{from_str-show, from_str-minus_show}
use ignited.Mount.Source.{
  UuidCrate, PartitionSourceBuilder, uuid, label, part_uuid, part_uuid_partnroff, part_type,
  part_label, raw_device, unquote, uuid_from_str, parse_uuid, parse_partuuid,
  parse_partuuid_partnroff, parse,
}
use ignited.Mount.Source.Render.{UuidText, show_ℤ, Fits, render, IsRawPath, IsWritten}

unquote_of_lacks : (s : String) → has b'"' s ≡ false → unquote s ≡ s
unfolding unquote has
unquote_of_lacks [] h = refl
unquote_of_lacks (c ∷ s) h = ground arith

from_str-show_ℤ : (n : ℤ) → Fits n → i64_from_str (show_ℤ n) ≡ some n
from_str-show_ℤ (pos n) h = from_str-show n h
from_str-show_ℤ (negsuc n) h = from_str-minus_show n h

module _ (u : UuidCrate) (t : UuidText u) where
  open t use {print, from_str-print, print_unquoted, print_no_slash}

  uuid_from_str-print : (id : u.Uuid) → uuid_from_str u (print id) ≡ some id
  unfolding uuid_from_str
  uuid_from_str-print id =
      rw (uuid_from_str, unquote_of_lacks (print id) (print_unquoted id)) (from_str-print id)

  parse_partuuid_partnroff-print :
      (id : u.Uuid) → parse_partuuid_partnroff u (print id) ≡ some (part_uuid id)
  unfolding parse_partuuid_partnroff
  parse_partuuid_partnroff-print id =
      rw
        (
          parse_partuuid_partnroff,
          split_once_at_of_lacks "/" "PARTNROFF=" (print id) (print_no_slash id),
        )
        (rw (uuid_from_str-print id))

  parse_partuuid_partnroff-number :
      (id : u.Uuid) (n : ℤ)
      → Fits n
      → parse_partuuid_partnroff u (print id ⧺ "/PARTNROFF=" ⧺ show_ℤ n)
        ≡ some (part_uuid_partnroff id n)
  unfolding parse_partuuid_partnroff
  parse_partuuid_partnroff-number id n h =
      rw
        (
          parse_partuuid_partnroff,
          split_once_at-append "/" "PARTNROFF=" (print id) (show_ℤ n) (print_no_slash id),
        )
        (rw (from_str-show_ℤ n h) (rw (uuid_from_str-print id)))

  parse_raw : (path : String) → IsRawPath path → parse u path ≡ some (raw_device path)
  unfolding parse strip_prefix
  parse_raw path r = rw r.under_dev (rw (r.not_uuid, r.not_label, r.not_partuuid, r.not_partlabel))

  rendered :
      (src : PartitionSourceBuilder u.Uuid) {a text : String}
      → some a ≡ some text
      → parse u a ≡ some src
      → parse u text ≡ some src
  rendered src {a} {text} e p = subst (λ x. parse u x ≡ some src) (some-injective a text e) p

  -- Whatever a written source stands for is read back from its text: the six kinds that have a
  -- text, each partition number that is an `i64`, and each raw path outside /dev/disk/by-….
  pub parse-render :
      (src : PartitionSourceBuilder u.Uuid) (text : String)
      → IsWritten src
      → render u t src ≡ some text
      → parse u text ≡ some src
  unfolding parse render parse_uuid parse_partuuid strip_prefix
  parse-render (uuid id) text w e = rendered (uuid id) e (rw (uuid_from_str-print id))
  parse-render (label name) text w e = rendered (label name) e refl
  parse-render (part_uuid id) text w e =
      rendered (part_uuid id) e (parse_partuuid_partnroff-print id)
  parse-render (part_uuid_partnroff id n) text w e =
      rendered (part_uuid_partnroff id n) e (parse_partuuid_partnroff-number id n w)
  parse-render (part_type id efi) text w e = cc
  parse-render (part_label name) text w e = rendered (part_label name) e refl
  parse-render (raw_device path) text w e = rendered (raw_device path) e (parse_raw path w)

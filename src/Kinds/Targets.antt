-- ===== src/Kinds/Targets.antt =====
-- The named kinds of backhand/src/kinds.rs, and the `with_` methods that change one.
use Prim.Native.String.{String}
use text.Mathlib.Text.{◌==◌ as str_eq}
use backhand.Common.{ℕ, List, [], ◌∷◌, if◌then◌else◌, Option, none, some, ◌≡◌, refl}
use backhand.Kinds.{Magic, little_magic, big_magic, Endian, little, big, CompressionAction, Kind}

-- b"hsqs" and b"sqsh"
unfoldable pub magic_bytes : Magic → List ℕ
magic_bytes little_magic = b'h' ∷ b's' ∷ b'q' ∷ b's' ∷ []
magic_bytes big_magic = b's' ∷ b'q' ∷ b's' ∷ b'h' ∷ []

module _ (default_compressor : CompressionAction) where
  unfoldable pub le_v4_0 : Kind
  unfolding magic_bytes
  le_v4_0 = record {
    magic = magic_bytes little_magic;
    type_endian = little;
    data_endian = little;
    version_major = 4;
    version_minor = 0;
    compressor = default_compressor;
  }

  unfoldable pub be_v4_0 : Kind
  unfolding magic_bytes
  be_v4_0 = record {
    magic = magic_bytes big_magic;
    type_endian = big;
    data_endian = big;
    version_major = 4;
    version_minor = 0;
    compressor = default_compressor;
  }

  unfoldable pub avm_be_v4_0 : Kind
  unfolding magic_bytes
  avm_be_v4_0 = record {
    magic = magic_bytes big_magic;
    type_endian = big;
    data_endian = little;
    version_major = 4;
    version_minor = 0;
    compressor = default_compressor;
  }

  -- `Kind::new`
  unfoldable pub new : CompressionAction → Kind
  unfolding le_v4_0
  new c = record le_v4_0 { compressor = c }

  -- `Kind::from_target`; `none` is the error "not a valid kind"
  unfoldable pub from_target : String → Option Kind
  unfolding le_v4_0 be_v4_0 avm_be_v4_0
  from_target s =
      if str_eq s "avm_be_v4_0"
      then some avm_be_v4_0
      else if str_eq s "be_v4_0"
      then some be_v4_0
      else if str_eq s "le_v4_0"
      then some le_v4_0
      else none

unfoldable pub with_magic : Kind → Magic → Kind
unfolding magic_bytes
with_magic k m = record k { magic = magic_bytes m }

unfoldable pub with_type_endian : Kind → Endian → Kind
with_type_endian k little = record k { type_endian = little }
with_type_endian k big = record k { type_endian = big }

unfoldable pub with_data_endian : Kind → Endian → Kind
with_data_endian k little = record k { data_endian = little }
with_data_endian k big = record k { data_endian = big }

unfoldable pub with_all_endian : Kind → Endian → Kind
with_all_endian k little = record k { type_endian = little; data_endian = little }
with_all_endian k big = record k { type_endian = big; data_endian = big }

unfoldable pub with_version : Kind → ℕ → ℕ → Kind
with_version k major minor = record k { version_major = major; version_minor = minor }

-- Setting both byte orders is setting one and then the other, in either order.
pub with_all_endian_lem :
    (k : Kind) (e : Endian)
    → (with_all_endian k e ≡ with_data_endian (with_type_endian k e) e)
      × (with_all_endian k e ≡ with_type_endian (with_data_endian k e) e)
unfolding with_all_endian with_data_endian with_type_endian
with_all_endian_lem k little = (refl, refl)
with_all_endian_lem k big = (refl, refl)

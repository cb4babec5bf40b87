-- ===== src/Permissions/Tests.antt =====
-- Theorems on src/elke27_lib/permissions.py at concrete inputs.
use mathlib.Core.List.{flatten}
use elke.Base.{◌≡◌, refl, inl, inr}
use elke.Base.Result.{ok}
use elke.Permissions.Level.{plt_encryption_key}
use elke.Permissions.Table.{permission_for_generator}
use elke.Permissions.Lookup.{Listed, all_pairs, permission_for_generator-Listed}

attribs-Listed : Listed "area_get_attribs" plt_encryption_key all_pairs
unfolding flatten
attribs-Listed = inr (inl (refl, refl))

permission_for_generator-Listed_example :
    permission_for_generator "area_get_attribs" ≡ ok plt_encryption_key
permission_for_generator-Listed_example =
    permission_for_generator-Listed "area_get_attribs" plt_encryption_key attribs-Listed

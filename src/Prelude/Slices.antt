-- ===== src/Prelude/Slices.antt =====
-- Slices, prefixes and suffixes of texts.
use Prim.Native.Nat.{ℕ, zero, suc, ◌-◌}
use mathlib.Core.Bool.{Bool, true, false, ◌&&◌, ◌||◌}
use mathlib.Core.List.{[], ◌∷◌}
use ai_customer_support_plat.Prelude.Tests.{leb, ◌==◌}
use ai_customer_support_plat.Prelude.Lists.{length}
use ai_customer_support_plat.Prelude.Strings.{Text, text_eq}

-- `s[:n]` and `s[n:]`
unfoldable pub take : ℕ → Text → Text
take zero s = []
take (suc n) [] = []
take (suc n) (c ∷ s) = c ∷ take n s

unfoldable pub drop : ℕ → Text → Text
drop zero s = s
drop (suc n) [] = []
drop (suc n) (c ∷ s) = drop n s

-- `s.startswith(p)`
unfoldable pub starts_with : Text → Text → Bool
starts_with [] s = true
starts_with (c ∷ p) [] = false
starts_with (c ∷ p) (d ∷ s) = c == d && starts_with p s

-- `s.endswith(t)`
unfoldable pub ends_with : Text → Text → Bool
ends_with s t = leb (length t) (length s) && text_eq (drop (length s - length t) s) t

-- `p in s`
unfoldable pub is_within : Text → Text → Bool
unfolding starts_with
is_within p [] = starts_with p []
is_within p (c ∷ s) = starts_with p (c ∷ s) || is_within p s

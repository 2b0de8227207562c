-- ===== src/Mgmt/Oob/Args.antt =====
-- Which pairs of keys `cmd_add_oob` can take from its arguments.
use bluepy.Common.{[], ◌∷◌, false, true, codes, arith, has_prefix, arg, ◌⊎◌, none, ◌≡◌, Text, List}
use bluepy.Mgmt.Oob.{oob_args}

labels_differ :
    (s : Text) → has_prefix (codes "R_192") s ≡ true → has_prefix (codes "C_256") s ≡ false
labels_differ [] h = cc
labels_differ (c ∷ s) h = ground arith

-- Whatever the arguments are, the 192-bit hash or the 256-bit hash is not taken from them.
pub oob_args-one_pair :
    (argv : List Text) → ((oob_args argv).c192 ≡ none) ⊎ ((oob_args argv).c256 ≡ none)
unfolding oob_args
oob_args-one_pair argv = let differ = labels_differ (arg argv 5) in ground arith

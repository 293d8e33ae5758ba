-- ===== src/Manager/Users.antt =====
-- validUsers, contains and sameUsers of pkg/fleetmanager/manager.go.
use Prim.Native.String.{len}
use nakama_agones.Prelude.{
  String, Bool, true, false, not, ◌&&◌, List, [], ◌∷◌, ◌==◌, text_Eq, number_Eq, leb, length, sort,
  text_lt, if◌then◌else◌,
}

unfoldable pub valid_users : List String → Bool
valid_users (u ∷ v ∷ []) =
    not (u == "") && not (v == "") && not (u == v) && leb (len u) 128 && leb (len v) 128
valid_users _ = false

-- a linear search
unfoldable pub contains : List String → String → Bool
contains [] user = false
contains (u ∷ us) user = let rest = contains us user in if u == user then true else rest

-- the loop `for i := range aa { if aa[i] != bb[i] { return false } }` over lists of one length
unfoldable pub same_in_order : List String → List String → Bool
same_in_order (a ∷ as_) (b ∷ bs) = a == b && same_in_order as_ bs
same_in_order [] bs = true
same_in_order (a ∷ as_) [] = false

unfoldable pub same_users : List String → List String → Bool
unfolding same_in_order
same_users a b =
    if not (length a == length b) then false else same_in_order (sort text_lt a) (sort text_lt b)

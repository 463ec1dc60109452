-- ===== src/Capabilities/Order.antt =====
-- The set of capabilities: its order, and what it holds after additions.
use exasol_gateway_sdk.Base.{ℕ, ◌<◌, List, [], ◌∷◌, ◌||◌, ◌==◌, All, ◌≡◌, refl, arith, ◌∙◌}
use exasol_gateway_sdk.Capabilities.{
  Capability, Capabilities, insert, contains, add, supports, values, empty, add_all, from_list,
}

abbrev pub IsAscending : List ℕ → Type 0
IsAscending [] = Unit {0}
IsAscending (c ∷ cs) = All (◌<◌ c) cs × IsAscending cs

All-insert : (b c : ℕ) (ds : List ℕ) → b < c → All (◌<◌ b) ds → All (◌<◌ b) (insert c ds)
unfolding insert
All-insert b c [] h k = (h, tt)
All-insert b c (d ∷ ds) h k = ground (arith, All-insert b c ds h k.1)

above : (b c : ℕ) (ds : List ℕ) → b < c → All (◌<◌ c) ds → All (◌<◌ b) ds
above b c [] h k = tt
above b c (d ∷ ds) h k = (omega (arith, k.0), above b c ds h k.1)

insert-IsAscending : (c : ℕ) (ds : List ℕ) → IsAscending ds → IsAscending (insert c ds)
unfolding insert
insert-IsAscending c [] h = (tt, tt)
insert-IsAscending c (d ∷ ds) h = ground (
  arith,
  insert-IsAscending c ds h.1,
  λ (p : c < d). above c d ds p h.0,
  λ (p : d < c). All-insert d c ds p h.0,
)

contains-insert : (c d : ℕ) (ds : List ℕ) → contains d (insert c ds) ≡ (d == c) || contains d ds
unfolding insert contains
contains-insert c d [] = ground arith
contains-insert c d (e ∷ ds) = ground (arith, contains-insert c d ds)

supports-add_all :
    (cs : List Capability) (self : Capabilities) (c : Capability)
    → supports (add_all cs self) c ≡ (contains c cs || supports self c)
unfolding supports add_all add contains
supports-add_all [] self c = refl
supports-add_all (d ∷ cs) self c =
    grind (arith, supports-add_all cs (add d self) c, contains-insert d c self.capabilities)

values-IsAscending :
    (cs : List Capability) (self : Capabilities)
    → IsAscending (values self)
    → IsAscending (values (add_all cs self))
unfolding values add_all add
values-IsAscending [] self h = h
values-IsAscending (c ∷ cs) self h =
    values-IsAscending cs (add c self) (insert-IsAscending c self.capabilities h)

contains_or_false : (c : ℕ) (cs : List ℕ) → (contains c cs || contains c []) ≡ contains c cs
unfolding contains
contains_or_false c cs = ground arith

-- `Capabilities` of a list: `values` gives them in ascending order, each once, and `supports` holds
-- of exactly the capabilities in the list.
pub from_list_lem :
    (cs : List Capability) (c : Capability)
    → IsAscending (values (from_list cs)) × (supports (from_list cs) c ≡ contains c cs)
unfolding from_list
from_list_lem cs c = (
  values-IsAscending cs empty (unfold values in tt),
  supports-add_all cs empty c ∙ unfold supports in contains_or_false c cs,
)

-- ===== src/Routes/Sorted.antt =====
-- The order of the candidates: sorting keeps every route and puts none before one that it should
-- follow.
use mathlib.Core.List.{Perm}
use mathlib.Core.List.Perm
use depix_sdk.Common.{
  ◌≡◌, ◌<◌, ◌⊎◌, refl, true, false, List, [], ◌∷◌, if◌then◌else◌, arith, Bool-cases, inl, inr, All,
}
use depix_sdk.Common.Text.{Text, text_ltb}
use depix_sdk.Routes.Legs.{Route}
use depix_sdk.Routes.Enumerate.{comes_before, insert, sort}

-- `b` is not below `a`, nor `c` below `b`, so `c` is not below `a`.
text_trans : (a b c : Text) → text_ltb b a ≡ false → text_ltb c b ≡ false → text_ltb c a ≡ false
text_trans [] [] [] h k = refl
text_trans [] [] (z ∷ c) h k = k
text_trans [] (y ∷ b) [] h k = cc
text_trans [] (y ∷ b) (z ∷ c) h k = refl
text_trans (x ∷ a) [] c h k = cc
text_trans (x ∷ a) (y ∷ b) [] h k = cc
text_trans (x ∷ a) (y ∷ b) (z ∷ c) h k = ground (arith, text_trans a b c)

text_ltb_asym : (s t : Text) → text_ltb s t ≡ true → text_ltb t s ≡ false
text_ltb_asym [] [] h = refl
text_ltb_asym [] (d ∷ t) h = refl
text_ltb_asym (c ∷ s) [] h = cc
text_ltb_asym (c ∷ s) (d ∷ t) h = ground (arith, text_ltb_asym s t)

-- A route that may stand before another: it has fewer hops; or as many, and it is not custodial while
-- the other is; or they tie on both, and the other's identifier is not the smaller one.
abbrev pub IsBefore : Route → Route → Type 0
IsBefore a b =
    (a.hops < b.hops)
    ⊎ ((a.hops ≡ b.hops)
        × (((a.custodial ≡ false) × (b.custodial ≡ true))
            ⊎ ((a.custodial ≡ b.custodial) × (text_ltb b.id a.id ≡ false))))

IsBefore-trans : (a b c : Route) → IsBefore a b → IsBefore b c → IsBefore a c
IsBefore-trans a b c h k = ground (arith, text_trans a.id b.id c.id)

comes_before-IsBefore : (a b : Route) → comes_before a b ≡ true → IsBefore a b
unfolding comes_before
comes_before-IsBefore a b h = ground (arith, text_ltb_asym a.id b.id)

stays-IsBefore : (a b : Route) → comes_before b a ≡ false → IsBefore a b
unfolding comes_before
stays-IsBefore a b h = ground arith

-- Each route may stand before every one that follows it.
abbrev pub IsOrdered : List Route → Type 0
IsOrdered [] = Unit
IsOrdered (r ∷ rest) = All (IsBefore r) rest × IsOrdered rest

All-IsBefore :
    (r s : Route) (l : List Route) → IsBefore r s → All (IsBefore s) l → All (IsBefore r) l
All-IsBefore r s [] b h = tt
All-IsBefore r s (t ∷ l) b h = (IsBefore-trans r s t b h.0, All-IsBefore r s l b h.1)

pub All-insert :
    (P : Route → Type 0) (r : Route) (l : List Route) → P r → All P l → All P (insert r l)
unfolding insert
All-insert P r [] hr h = (hr, tt)
All-insert P r (s ∷ rest) hr h = elim (Bool-cases (comes_before s r)) [
  | inl e ↦ rw (e, if◌then◌else◌) (h.0, All-insert P r rest hr h.1)
  | inr e ↦ rw (e, if◌then◌else◌) (hr, (h.0, h.1))
]

pub All-sort : (P : Route → Type 0) (l : List Route) → All P l → All P (sort l)
unfolding sort
All-sort P [] h = tt
All-sort P (r ∷ rest) h = All-insert P r (sort rest) h.0 (All-sort P rest h.1)

insert-IsOrdered : (r : Route) (l : List Route) → IsOrdered l → IsOrdered (insert r l)
unfolding insert
insert-IsOrdered r [] h = (tt, tt)
insert-IsOrdered r (s ∷ rest) h = elim (Bool-cases (comes_before s r)) [
  | inl e ↦
      rw (e, if◌then◌else◌)
        (
          All-insert (IsBefore s) r rest (comes_before-IsBefore s r e) h.0,
          insert-IsOrdered r rest h.1,
        )
  | inr e ↦
      let first = stays-IsBefore r s e in
      rw (e, if◌then◌else◌) ((first, All-IsBefore r s rest first h.0), h)
]

pub sort-IsOrdered : (l : List Route) → IsOrdered (sort l)
unfolding sort
sort-IsOrdered [] = tt
sort-IsOrdered (r ∷ rest) = insert-IsOrdered r (sort rest) (sort-IsOrdered rest)

insert-perm : (r : Route) (l : List Route) → Perm (insert r l) (r ∷ l)
unfolding insert
insert-perm r [] = Perm.rfl
insert-perm r (s ∷ rest) = elim (Bool-cases (comes_before s r)) [
  | inl e ↦
      rw (e, if◌then◌else◌) (Perm.trans (Perm.cons s (insert-perm r rest)) (Perm.swap r s rest))
  | inr e ↦ rw (e, if◌then◌else◌) Perm.rfl
]

pub sort-perm : (l : List Route) → Perm (sort l) l
unfolding sort
sort-perm [] = Perm.rfl
sort-perm (r ∷ rest) = Perm.trans (insert-perm r (sort rest)) (Perm.cons r (sort-perm rest))

-- ===== src/Motion/Turn/Round.antt =====
-- The round that `process_swipe_end` of cardboard/Seat.cpp makes over the workspaces.
use cardboard.Base.{
  ℕ, zero, suc, ◌+◌, ◌-◌, ◌%◌, ◌==◌, ◌<◌, ◌≡◌, ◌∙◌, refl, ap, sym, subst, Bool, true, false, some,
  List, [], ◌∷◌, if◌then◌else◌, arith, leb, Bool-cases, inl, inr,
}
use native.Mathlib.Nat.{mod-eq_of_lt, mod_self, add-mod_right}
use cardboard.Base.Count.{count}
use cardboard.Motion.Turn.{wrap_advance, visits}

wrap_back :
    (i size : ℕ) → i < size → wrap_advance i true size ≡ (if i == 0 then size - 1 else i - 1)
unfolding wrap_advance
wrap_back zero size h =
    let e : 0 + size - 1 ≡ size - 1 = omega arith in
    ap (λ n. n % size) e ∙ mod-eq_of_lt (omega (arith, h))
wrap_back (suc i) size h =
    let e : suc i + size - 1 ≡ i + size = omega arith in
    let low : i % size ≡ i = mod-eq_of_lt (omega (arith, h)) in
    let same : i ≡ (if suc i == 0 then size - 1 else suc i - 1) = ground arith in
    ap (λ n. n % size) e ∙ add-mod_right i size ∙ low ∙ same

wrap_on : (i size : ℕ) → i < size → wrap_advance i false size ≡ (if suc i == size then 0 else suc i)
unfolding wrap_advance
wrap_on i size h = elim (Bool-cases (suc i == size)) [
  | inl e ↦
      let full : i + 1 ≡ size = ground (arith, e) in
      rw e (add-mod_right (i + 1) size ∙ ap (λ n. n % size) full ∙ mod_self size)
  | inr e ↦
      let low : (i + 1) % size ≡ i + 1 = mod-eq_of_lt (ground (arith, e, h)) in
      let same : i + 1 ≡ suc i = omega arith in rw e (add-mod_right (i + 1) size ∙ low ∙ same)
]

-- How many rounds there are from `j` to `start`.
unfoldable distance : Bool → (size start j : ℕ) → ℕ
distance true size start j = if leb start j then j - start else j + size - start
distance false size start j = if leb j start then start - j else start + size - j

distance_wrap :
    (back : Bool) (size start i : ℕ)
    → i < size
    → start < size
    → (wrap_advance i back size < size)
      × (suc (distance back size start (wrap_advance i back size))
          ≡ (if i == start then size else distance back size start i))
unfolding distance
distance_wrap true size start i h k =
    rw (wrap_back i size h) (ground (arith, h, k), ground (arith, h, k))
distance_wrap false size start i h k =
    rw (wrap_on i size h) (ground (arith, h, k), ground (arith, h, k))

distance-injective :
    (back : Bool) (size start i j : ℕ)
    → i < size
    → j < size
    → start < size
    → distance back size start i ≡ distance back size start j
    → i ≡ j
unfolding distance
distance-injective true size start i j h k l e = ground (arith, h, k, l, e)
distance-injective false size start i j h k l e = ground (arith, h, k, l, e)

distance_zero :
    (back : Bool) (size start i : ℕ)
    → i < size
    → start < size
    → (distance back size start i == 0) ≡ (i == start)
unfolding distance
distance_zero true size start i h k = ground (arith, h, k)
distance_zero false size start i h k = ground (arith, h, k)

distance_low :
    (back : Bool) (size start i : ℕ) → i < size → start < size → distance back size start i < size
unfolding distance
distance_low true size start i h k = ground (arith, h, k)
distance_low false size start i h k = ground (arith, h, k)

-- How often a position is on the rest of the round, when that has `k` rounds.
abbrev on_rest : ℕ → ℕ → ℕ
on_rest k distance = if (0 == distance) then 0 else if leb distance k then 1 else 0

visits_rest :
    (back : Bool) (size start k i : ℕ)
    → i < size
    → start < size
    → distance back size start i ≡ k
    → (is : List ℕ) × (visits (suc k) back size start i ≡ some is)
      × ((j : ℕ) → j < size → count j is ≡ on_rest k (distance back size start j))
unfolding visits
visits_rest back size start zero i h l e =
    let there : (i == start) ≡ true = ground (arith, e, distance_zero back size start i h l) in
    ([], rw there refl, λ j low. ground arith)
visits_rest back size start (suc k) i h l e =
    let away : (i == start) ≡ false = ground (arith, e, distance_zero back size start i h l) in
    let (low, steps) = distance_wrap back size start i h l in
    let next : distance back size start (wrap_advance i back size) ≡ k =
      ground (arith, e, away, steps) in
    let (is, found, counts) = visits_rest back size start k (wrap_advance i back size) low l next in
    (
      i ∷ is,
      rw (away, found) refl,
      λ j j_low. elim (Bool-cases (i == j)) [
        | inl same ↦
            let same' : i ≡ j = ground (arith, same) in
            let far : distance back size start j ≡ suc k =
              ap (λ n. distance back size start n) (sym same') ∙ e in
            rw same (ground (arith, counts j j_low, far))
        | inr other ↦ rw other (
            ground
              (arith, counts j j_low, distance-injective back size start i j h j_low l, e, other))
      ],
    )

-- From a position among so many workspaces, in either direction, the loop ends within as many
-- rounds as there are workspaces, and goes through each other workspace exactly once.
pub visits-IsRound :
    (back : Bool) (size start : ℕ)
    → start < size
    → (is : List ℕ) × (visits size back size start (wrap_advance start back size) ≡ some is)
      × ((j : ℕ) → j < size → count j is ≡ (if j == start then 0 else 1))
visits-IsRound back size start h =
    let (low, steps) = distance_wrap back size start start h h in
    let all : suc (distance back size start (wrap_advance start back size)) ≡ size =
      ground (arith, steps) in
    let (is, found, counts) =
      visits_rest back size start (distance back size start (wrap_advance start back size))
        (wrap_advance start back size) low h refl in
    (
      is,
      subst (λ n. visits n back size start (wrap_advance start back size) ≡ some is) all found,
      λ j j_low. ground (
        arith,
        counts j j_low,
        distance_zero back size start j j_low h,
        distance_low back size start j j_low h,
        all,
      ),
    )

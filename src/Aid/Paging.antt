-- ===== src/Aid/Paging.antt =====
-- Paginated queries (contracts/aid-contract/src/api.rs, and `paginate` of lib.rs). The loops count
-- up to a bound, so they take the number of rounds left.
use mathlib.Core.List.{append_assoc}
use trellis_contracts.Prelude.{
  refl, ltb→lt, inl, inr, Bool-cases, ◌<◌, arith, ◌≤◌, ◌≡◌, ℕ, zero, suc, ◌+◌, ◌-◌, Bool, true,
  false, Option, none, some, List, [], ◌∷◌, ◌++◌, ltb, ◌==◌, if◌then◌else◌, unwrap_or, length,
}
use trellis_contracts.Host.{Address}
use trellis_contracts.Aid.{AidRecord, Aid, get_aid, get_aid_counter}

pub record Page : Type 0 where
  pub aids : List AidRecord
  pub next_cursor : Option ℕ

-- The record that one round appends, if there is one.
abbrev hit : (AidRecord → Bool) → Option AidRecord → List AidRecord
hit keep none = []
hit keep (some r) = if keep r then r ∷ [] else []

-- `while aids.len() < limit && current_id < total_aids`, from `current_id` with `rounds` ids left.
-- The test `keep` is the donor filter; `list_aids` keeps every record.
unfoldable pub scan :
    (AidRecord → Bool) → (ℕ → Option AidRecord) → ℕ → ℕ → ℕ → List AidRecord → List AidRecord × ℕ
scan keep get zero limit i out = (out, i)
scan keep get (suc rounds) limit i out = elim (ltb (length out) limit) [
  | true ↦ scan keep get rounds limit (i + 1) (out ++ hit keep (get i))
  | false ↦ (out, i)
]

abbrev page_of : ℕ → List AidRecord × ℕ → Page
page_of count (out, i) = record { aids = out; next_cursor = if ltb i count then some i else none }

module _ {T : Type 0} where
  abbrev list_where : (AidRecord → Bool) → Aid T → ℕ → Option ℕ → Page
  list_where keep s limit cursor =
      if limit == 0
      then record { aids = []; next_cursor = cursor }
      else page_of (get_aid_counter s) (
          scan keep (λ i. get_aid i s) (get_aid_counter s - unwrap_or cursor 0) limit
            (unwrap_or cursor 0) [])

  pub list_aids : Aid T → ℕ → Option ℕ → Page
  unfolding scan get_aid_counter get_aid
  list_aids = list_where (λ _. true)

  unfoldable pub list_aids_by_donor : Aid T → Address → ℕ → Option ℕ → Page
  unfolding scan get_aid_counter get_aid
  list_aids_by_donor s donor = list_where (λ r. r.donor == donor) s

-- The kept records with ids from `i` on, for `n` ids: what all pages together are to return.
pub collect : (AidRecord → Bool) → (ℕ → Option AidRecord) → ℕ → ℕ → List AidRecord
collect keep get zero i = []
collect keep get (suc n) i = hit keep (get i) ++ collect keep get n (i + 1)

length-append : (xs ys : List AidRecord) → length (xs ++ ys) ≡ length xs + length ys
length-append [] ys = omega arith
length-append (x ∷ xs) ys = omega (arith, length-append xs ys)

hit_le : (keep : AidRecord → Bool) (o : Option AidRecord) → length (hit keep o) ≤ 1
hit_le keep none = omega arith
hit_le keep (some r) = ground arith

-- What a scan has done when it stops at `j`: it has moved forward within its rounds, its output
-- and what the rest of the ids hold are all there is, and the limit is kept.
record Scanned (keep : AidRecord → Bool) (get : ℕ → Option AidRecord) (rounds limit i : ℕ)
    (out : List AidRecord) (res : List AidRecord × ℕ) : Type 0 where
  after : i ≤ res.1
  within : res.1 ≤ i + rounds
  complete : out ++ collect keep get rounds i ≡ res.0 ++ collect keep get (i + rounds - res.1) res.1
  short : length out ≤ limit → length res.0 ≤ limit
  moves : length out < limit → 0 < rounds → i < res.1

scan_lem :
    (keep : AidRecord → Bool) (get : ℕ → Option AidRecord) (rounds limit i : ℕ)
    (out : List AidRecord)
    → Scanned keep get rounds limit i out (scan keep get rounds limit i out)
unfolding scan collect
scan_lem keep get zero limit i out = record {
  after = omega arith;
  within = omega arith;
  complete = let z : i + 0 - i ≡ 0 = omega arith in rw z;
  short = λ h. h;
  moves = λ h p. absurd (omega arith);
}
scan_lem keep get (suc rounds) limit i out = elim (Bool-cases (ltb (length out) limit)) [
  | inr full ↦
      rw (full, scan)
        (record {
          after = omega arith;
          within = omega arith;
          complete = let z : i + suc rounds - i ≡ suc rounds = omega arith in rw z;
          short = λ h. h;
          moves = λ h p. absurd (ground arith);
        })
  | inl room ↦
      let out' = out ++ hit keep (get i) in
      let ih = scan_lem keep get rounds limit (i + 1) out' in
      let e : i + suc rounds ≡ i + 1 + rounds = omega arith in
      let n = length-append out (hit keep (get i)) in
      let one = hit_le keep (get i) in
      rw (room, scan)
        (record {
          after = omega (arith, ih.after);
          within = omega (arith, ih.within);
          complete = rw e (rw (← append_assoc) ih.complete);
          short = λ h. ih.short (ground arith);
          moves = λ h p. omega (arith, ih.after);
        })
]

-- The ids that a page leaves for the next one.
abbrev rest_of : (AidRecord → Bool) → (ℕ → Option AidRecord) → ℕ → Option ℕ → List AidRecord
rest_of keep get count none = []
rest_of keep get count (some n) = collect keep get (count - n) n

-- The next cursor, if there is one, moves forward within the ids.
abbrev pub IsForward : ℕ → ℕ → Option ℕ → Type 0
IsForward count start none = Unit {0}
IsForward count start (some n) = (start < n) × (n < count)

-- The first id of a page: that of its cursor, and 0 when there is none.
abbrev pub first_id : Option ℕ → ℕ
first_id none = 0
first_id (some i) = i

first_id_lem : (cursor : Option ℕ) → unwrap_or cursor 0 ≡ first_id cursor
first_id_lem none = refl
first_id_lem (some i) = refl

-- A page has at most `limit` records, the page and what its cursor leaves are all records from
-- the start on, in order and none twice, and the next cursor moves forward within the ids.
abbrev pub IsPage : (AidRecord → Bool) → (ℕ → Option AidRecord) → ℕ → ℕ → ℕ → Page → Type 0
IsPage keep get count limit start p =
    (length p.aids ≤ limit)
    × (collect keep get (count - start) start ≡ p.aids ++ rest_of keep get count p.next_cursor)
    × IsForward count start p.next_cursor

Scanned-IsPage :
    (keep : AidRecord → Bool) (get : ℕ → Option AidRecord) (count limit start j : ℕ)
    (out : List AidRecord)
    → 0 < limit
    → Scanned keep get (count - start) limit start [] (out, j)
    → IsPage keep get count limit start (page_of count (out, j))
unfolding collect
Scanned-IsPage keep get count limit start j out h v = elim (Bool-cases (ltb j count)) [
  | inl more ↦
      let lt = ltb→lt j count more in
      let e : start + (count - start) - j ≡ count - j = omega (arith, v.after, v.within) in
      let m = v.moves in
      rw more
        (v.short (omega arith), rw e at v.complete, (m h (omega (arith, v.after, v.within)), lt))
  | inr done ↦
      let ge : count ≤ j = ground arith in
      let e : start + (count - start) - j ≡ 0 = omega (arith, v.after, v.within) in
      rw done (v.short (omega arith), rw e at v.complete, tt)
]

module _ {T : Type 0} (s : Aid T) (limit : ℕ) (cursor : Option ℕ) where
  list_where-IsPage :
      (keep : AidRecord → Bool)
      → 0 < limit
      → IsPage keep
          (λ i. get_aid i s)
          (get_aid_counter s)
          limit
          (first_id cursor)
          (list_where keep s limit cursor)
  list_where-IsPage keep h =
      let count = get_aid_counter s in
      let get = λ (i : ℕ). get_aid i s in
      let z : (limit == 0) ≡ false = ground arith in
      let from = first_id_lem cursor in
      rw (z, from)
        (Scanned-IsPage keep get count limit (first_id cursor) _ _ h
          (scan_lem keep get (count - first_id cursor) limit (first_id cursor) []))

  -- A page of list_aids with a positive limit, for any cursor and from id 0 when there is none: it
  -- has at most that many records, the page and what its next cursor leaves are all records from
  -- the start in order and none twice, and the next cursor moves forward.
  pub list_aids-IsPage :
      0 < limit
      → IsPage
          (λ _. true)
          (λ i. get_aid i s)
          (get_aid_counter s)
          limit
          (first_id cursor)
          (list_aids s limit cursor)
  unfolding list_aids
  list_aids-IsPage h = list_where-IsPage (λ _. true) h

  -- Following the cursors of `list_aids_by_donor` lists every aid of the donor from there on once.
  pub list_aids_by_donor-IsPage :
      (donor : Address)
      → 0 < limit
      → IsPage
          (λ r. r.donor == donor)
          (λ i. get_aid i s)
          (get_aid_counter s)
          limit
          (first_id cursor)
          (list_aids_by_donor s donor limit cursor)
  unfolding list_aids_by_donor
  list_aids_by_donor-IsPage donor h = list_where-IsPage (λ r. r.donor == donor) h

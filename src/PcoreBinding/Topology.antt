-- ===== src/PcoreBinding/Topology.antt =====
-- topology/siblings.go: the pairs of logical CPUs that share a physical core.
pub mod Distinct
use Prim.Native.String.{String}
use cloud_native.Prelude.{
  ℕ, zero, suc, ◌+◌, ◌-◌, ◌*◌, ◌%◌, ◌^◌, ◌<◌, Bool, true, false, ◌||◌, ◌&&◌, Option, none, some,
  List, [], ◌∷◌, ◌++◌, ltb, leb, ◌==◌, if◌then◌else◌, length,
}
use cloud_native.Word64.{add64, slt}
use cloud_native.TopologyAware.Request.Devices.{Text, codes, is_empty, trim_space, split, has_infix}
use cloud_native.TopologyAware.Filter.{print_int, text_eq}

pub record SiblingPair : Type 0 where
  pub cpu0 : ℕ
  pub cpu1 : ℕ

-- `SiblingPair.String`
unfoldable pub pair_string : SiblingPair → Text
unfolding print_int
pair_string p =
    if slt p.cpu0 p.cpu1
    then print_int p.cpu0 ++ codes "," ++ print_int p.cpu1
    else print_int p.cpu1 ++ codes "," ++ print_int p.cpu0

-- The number that a text of digits reads as, after `acc`
digits_value : ℕ → Text → Option ℕ
digits_value acc [] = some acc
digits_value acc (c ∷ s) =
    let rest = digits_value (acc * 10 + (c - 48)) s in if leb 48 c && leb c 57 then rest else none

number_of : Text → Option ℕ
unfolding digits_value
number_of [] = none
number_of (c ∷ s) = digits_value 0 (c ∷ s)

positive_int : Option ℕ → Option ℕ
positive_int none = none
positive_int (some n) = if ltb n (2 ^ 63) then some n else none

negative_int : Option ℕ → Option ℕ
negative_int none = none
negative_int (some n) = if leb n (2 ^ 63) then some ((2 ^ 64 - n) % 2 ^ 64) else none

-- `strconv.Atoi`; `none` is an error of syntax or range.
unfoldable pub atoi : Text → Option ℕ
unfolding number_of positive_int negative_int
atoi [] = none
atoi (c ∷ s) =
    if c == 45
    then negative_int (number_of s)
    else if c == 43
    then positive_int (number_of s)
    else positive_int (number_of (c ∷ s))

-- `count` numbers from `cpu`
unfoldable pub cpu_range : ℕ → ℕ → List ℕ
cpu_range cpu zero = []
cpu_range cpu (suc count) = cpu ∷ cpu_range (add64 cpu 1) count

-- `for cpu := start; cpu <= end; cpu++`. (To the greatest `int` the loop does not end; the model
-- stops there.)
range_of : Option ℕ → Option ℕ → Option (List ℕ)
unfolding cpu_range
range_of none last = none
range_of (some first) none = none
range_of (some first) (some last) =
    if slt last first
    then some []
    else some (cpu_range first (suc ((last + 2 ^ 63) % 2 ^ 64 - (first + 2 ^ 63) % 2 ^ 64)))

range_item : List Text → Option (List ℕ)
unfolding range_of
range_item (first ∷ last ∷ []) = range_of (atoi (trim_space first)) (atoi (trim_space last))
range_item _ = none

single : Option ℕ → Option (List ℕ)
single none = none
single (some cpu) = some (cpu ∷ [])

-- One round of the loop over the items, with the item trimmed: the CPUs that it adds.
unfoldable pub parse_item : Text → Option (List ℕ)
unfolding range_item single
parse_item item =
    if is_empty item
    then some []
    else if has_infix (codes "-") item
    then range_item (split 45 item)
    else single (atoi item)

append_cpus : Option (List ℕ) → Option (List ℕ) → Option (List ℕ)
append_cpus none rest = none
append_cpus (some cpus) none = none
append_cpus (some cpus) (some rest) = some (cpus ++ rest)

unfoldable pub parse_items : List Text → Option (List ℕ)
unfolding parse_item append_cpus
parse_items [] = some []
parse_items (item ∷ items) = append_cpus (parse_item (trim_space item)) (parse_items items)

insert_int : ℕ → List ℕ → List ℕ
insert_int x [] = x ∷ []
insert_int x (y ∷ ys) = let rest = insert_int x ys in if slt y x then y ∷ rest else x ∷ y ∷ ys

-- `sort.Ints`
unfoldable pub sort_ints : List ℕ → List ℕ
unfolding insert_int
sort_ints [] = []
sort_ints (x ∷ xs) = insert_int x (sort_ints xs)

sorted : Option (List ℕ) → Option (List ℕ)
sorted none = none
sorted (some cpus) = some (sort_ints cpus)

unfoldable pub parse_cpu_list : Text → Option (List ℕ)
unfolding sorted parse_items
parse_cpu_list raw = sorted (parse_items (split 44 raw))

pair_of : Option (List ℕ) → Option SiblingPair
pair_of (some (a ∷ b ∷ [])) = some (record { cpu0 = a; cpu1 = b })
pair_of _ = none

unfoldable pub parse_pair : Text → Option SiblingPair
unfolding pair_of parse_cpu_list
parse_pair s = pair_of (parse_cpu_list s)

-- `m[key]` of a set of texts
unfoldable pub has_text : List Text → Text → Bool
unfolding text_eq
has_text [] t = false
has_text (s ∷ ts) t = text_eq s t || has_text ts t

-- The pair of a file, `none` where the file is not readable or holds no pair
pair_in : Option Text → Option SiblingPair
unfolding parse_pair
pair_in none = none
pair_in (some raw) = parse_pair (trim_space raw)

-- One round of the loop over the files: the keys seen are the texts of the pairs found.
collect_pair : List Text → Option SiblingPair → (List Text → List SiblingPair) → List SiblingPair
unfolding pair_string has_text
collect_pair seen none rest = rest seen
collect_pair seen (some pair) rest =
    if has_text seen (pair_string pair) then rest seen else pair ∷ rest (pair_string pair ∷ seen)

collect_pairs : List Text → List (Option Text) → List SiblingPair
unfolding collect_pair pair_in
collect_pairs seen [] = []
collect_pairs seen (file ∷ files) =
    collect_pair seen (pair_in file) (λ seen. collect_pairs seen files)

pair_less : SiblingPair → SiblingPair → Bool
pair_less p q = if p.cpu0 == q.cpu0 then slt p.cpu1 q.cpu1 else slt p.cpu0 q.cpu0

insert_pair : SiblingPair → List SiblingPair → List SiblingPair
unfolding pair_less
insert_pair p [] = p ∷ []
insert_pair p (q ∷ qs) =
    let rest = insert_pair p qs in if pair_less q p then q ∷ rest else p ∷ q ∷ qs

sort_pairs : List SiblingPair → List SiblingPair
unfolding insert_pair
sort_pairs [] = []
sort_pairs (p ∷ ps) = insert_pair p (sort_pairs ps)

-- The files are what `filepath.Glob` and `os.ReadFile` give, in order; an empty result is an error.
unfoldable pub discover_sibling_pairs : List (Option Text) → Option (List SiblingPair)
unfolding collect_pairs sort_pairs
discover_sibling_pairs files =
    let out = sort_pairs (collect_pairs [] files) in if is_empty out then none else some out

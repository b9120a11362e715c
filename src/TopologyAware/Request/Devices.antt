-- ===== src/TopologyAware/Request/Devices.antt =====
-- The device part of request.go: which accelerators the environment of a container names. A text is
-- the list of its code points.
use Prim.Native.Char.{code}
use Prim.Native.String.{String}
use cloud_native.Prelude.{
  ℕ, Bool, true, false, ◌&&◌, ◌||◌, not, Option, none, some, List, [], ◌∷◌, ◌++◌, leb, ◌==◌, str_eq,
  if◌then◌else◌,
}

abbrev pub Text : Type 0
Text = List ℕ

abbrev pub codes : String → Text
codes String.[] = []
codes (String.◌∷◌ c s) = code c ∷ codes s

abbrev pub is_empty {ℓ} : {A : Type ℓ} → List A → Bool
is_empty [] = true
is_empty (x ∷ xs) = false

-- unicode.IsSpace
is_space : ℕ → Bool
is_space c =
    (leb 9 c && leb c 13)
    || c == 32
    || c == 0x85
    || c == 0xa0
    || c == 0x1680
    || (leb 0x2000 c && leb c 0x200a)
    || c == 0x2028
    || c == 0x2029
    || c == 0x202f
    || c == 0x205f
    || c == 0x3000

pub trim_left : Text → Text
unfolding is_space
trim_left [] = []
trim_left (c ∷ s) = let rest = trim_left s in if is_space c then rest else c ∷ s

pub trim_right : Text → Text
unfolding is_space
trim_right [] = []
trim_right (c ∷ s) = let rest = trim_right s in if is_empty rest && is_space c then [] else c ∷ rest

-- strings.TrimSpace
unfoldable pub trim_space : Text → Text
unfolding trim_left trim_right
trim_space s = trim_right (trim_left s)

prepend : ℕ → List Text → List Text
prepend c [] = (c ∷ []) ∷ []
prepend c (piece ∷ pieces) = (c ∷ piece) ∷ pieces

-- `strings.Split(s, sep)` for a separator of one byte
unfoldable pub split : ℕ → Text → List Text
unfolding prepend
split sep [] = [] ∷ []
split sep (c ∷ s) = let rest = split sep s in if c == sep then [] ∷ rest else prepend c rest

is_digit : ℕ → Bool
is_digit c = leb b'0' c && leb c b'9'

take_digits : Text → Text
unfolding is_digit
take_digits [] = []
take_digits (c ∷ s) = let rest = take_digits s in if is_digit c then c ∷ rest else []

-- What follows the prefix `p` of `s`
drop_prefix : Text → Text → Option Text
drop_prefix [] s = some s
drop_prefix (c ∷ p) [] = none
drop_prefix (c ∷ p) (d ∷ s) = let rest = drop_prefix p s in if c == d then rest else none

some_digits : Text → Option Text
some_digits [] = none
some_digits (c ∷ s) = some (c ∷ s)

is_some : Option Text → Bool
is_some none = false
is_some (some s) = true

-- `strings.Contains(s, sub)`
unfoldable pub has_infix : Text → Text → Bool
unfolding drop_prefix is_some
has_infix sub [] = is_empty sub
has_infix sub (c ∷ s) = is_some (drop_prefix sub (c ∷ s)) || has_infix sub s

digits_after : Option Text → Option Text
unfolding take_digits some_digits
digits_after none = none
digits_after (some rest) = some_digits (take_digits rest)

or_else : Option Text → Option Text → Option Text
or_else none o = o
or_else (some a) o = some a

-- The group of the leftmost match of the expression `<prefix>(\d+)`, which is not anchored.
unfoldable pub find_submatch : Text → Text → Option Text
unfolding drop_prefix digits_after or_else
find_submatch p [] = digits_after (drop_prefix p [])
find_submatch p (c ∷ s) = or_else (digits_after (drop_prefix p (c ∷ s))) (find_submatch p s)

pub data DeviceType : Type 0 where
  gpu npu fpga : DeviceType

-- The pattern stands as the function that its compiled form computes; DevicePrefix is never read.
pub record DeviceEnvConfig : Type 0 where
  pub allocate_env_name : String
  pub visible_env_name : String
  pub device_regex : Text → Option Text
  pub device_type : DeviceType

abbrev pub vacc_config : DeviceEnvConfig
vacc_config = record {
  allocate_env_name = "VA_ALLOCATE_DEVICES";
  visible_env_name = "VA_VISIBLE_DEVICES";
  device_regex = find_submatch (codes "/dev/vacc");
  device_type = gpu;
}

abbrev pub known_device_configs : List DeviceEnvConfig
known_device_configs = vacc_config ∷ []

-- `containerEnvs[name]`: a missing key reads as the empty text.
unfoldable pub env_value : List (String × Text) → String → Text
env_value [] name = []
env_value ((key, value) ∷ envs) name =
    let rest = env_value envs name in if str_eq key name then value else rest

unfoldable pub parse_device_id : (Text → Option Text) → Text → Option Text
unfolding trim_space
parse_device_id regex device = regex (trim_space device)

cons_some : Option Text → List Text → List Text
cons_some none ids = ids
cons_some (some id) ids = id ∷ ids

-- the loop of `extractDeviceIDs`
unfoldable pub collect_ids : (Text → Option Text) → List Text → List Text
unfolding parse_device_id cons_some
collect_ids regex [] = []
collect_ids regex (device ∷ devices) =
    cons_some (parse_device_id regex device) (collect_ids regex devices)

unfoldable pub extract_device_ids : Text → (Text → Option Text) → List Text
unfolding collect_ids split
extract_device_ids s regex = if is_empty s then [] else collect_ids regex (split b',' s)

id_or_device : Option Text → Text → Text
id_or_device none device = device
id_or_device (some id) device = id

-- the loop of `extractVisibleDeviceIDs`
unfoldable pub collect_visible_ids : (Text → Option Text) → List Text → List Text
unfolding trim_space parse_device_id id_or_device
collect_visible_ids regex [] = []
collect_visible_ids regex (d ∷ devices) =
    let rest = collect_visible_ids regex devices in
    let device = trim_space d in
    if is_empty device then rest else id_or_device (parse_device_id regex device) device ∷ rest

unfoldable pub extract_visible_device_ids : Text → (Text → Option Text) → List Text
unfolding collect_visible_ids split
extract_visible_device_ids s regex =
    if is_empty s then [] else collect_visible_ids regex (split b',' s)

-- A nil map of environment variables is `none`.
unfoldable pub check_device_request :
    Option (List (String × Text)) → DeviceEnvConfig → Bool × List Text
unfolding env_value extract_device_ids extract_visible_device_ids
check_device_request none config = (false, [])
check_device_request (some envs) config =
    let alloc = env_value envs config.allocate_env_name in
    let visible = env_value envs config.visible_env_name in
    (
      not (is_empty alloc) || not (is_empty visible),
      extract_device_ids alloc config.device_regex
          ++ extract_visible_device_ids visible config.device_regex,
    )

-- ===== src/Oci/Mapping/Guest.antt =====
-- The releases and the shapes of helper/helper_app/oci/mapping.py. Names of shapes are ASCII, so upper case is
-- that of ASCII; a release is the list of its character codes, of which `strip` takes the ASCII blanks.
use vmware_migration_helper.Base.{
  ℕ, ◌-◌, Bool, true, false, not, ◌&&◌, ◌||◌, Option, none, some, List, [], ◌∷◌, ◌++◌, map, String,
  ◌=s=◌, ◌==◌, leb, if◌then◌else◌, any, is_nil, or_default,
}
use vmware_migration_helper.Base.Bytes.{Bytes, codes, eq_bytes, strip}

-- `OsMetadata`, without the family
pub record OsMetadata : Type 0 where
  pub operating_system : String
  pub operating_system_version : Bytes
  pub version_detected : Bool

abbrev pub windows_client_versions : List String
windows_client_versions = "Windows10" ∷ "Windows11" ∷ []

abbrev pub all_version_choices : List (String × List String)
all_version_choices =
    ("Ubuntu", "18.04" ∷ "20.04" ∷ "22.04" ∷ "24.04" ∷ "26.04" ∷ [])
    ∷ ("Rocky Linux", "8" ∷ "9" ∷ "10" ∷ [])
    ∷ ("AlmaLinux", "8" ∷ "9" ∷ "10" ∷ [])
    ∷ ("openSUSE", "15" ∷ [])
    ∷ ("Fedora", "40" ∷ "41" ∷ "42" ∷ "43" ∷ "44" ∷ [])
    ∷ ("Oracle Linux", "6" ∷ "7" ∷ "8" ∷ "9" ∷ "10" ∷ [])
    ∷ ("Red Hat Enterprise Linux", "7" ∷ "8" ∷ "9" ∷ "10" ∷ [])
    ∷ ("CentOS", "7" ∷ "8" ∷ [])
    ∷ ("Debian", "10" ∷ "11" ∷ "12" ∷ "13" ∷ [])
    ∷ ("SUSE Linux Enterprise Server", "12" ∷ "15" ∷ "16" ∷ [])
    ∷ (
      "Windows",
      "Server 2012 R2 Standard" ∷ "Server 2016 Standard" ∷ "Server 2019 Standard"
          ∷ "Server 2022 Standard" ∷ "Server 2025 Standard" ∷ "Windows10" ∷ "Windows11" ∷ [],
    )
    ∷ []

abbrev pub choices_in : String → List (String × List String) → List String
choices_in name [] = []
choices_in name (entry ∷ entries) = if entry.0 =s= name then entry.1 else choices_in name entries

-- `version in choices`
abbrev pub has_version : Bytes → List String → Bool
has_version version choices = any (λ c. eq_bytes (codes c) version) choices

unfoldable pub os_version_choices : OsMetadata → List Bytes
os_version_choices os =
    let choices = choices_in os.operating_system all_version_choices in
    let known = map (λ c. codes c) choices in
    if not (is_nil choices)
      && os.version_detected
      && not (has_version os.operating_system_version choices)
    then known ++ os.operating_system_version ∷ []
    else known

-- An optional text is false when it is missing or empty.
abbrev pub text : Option String → String
text o = or_default o ""

abbrev pub has_text : Option String → Bool
has_text o = not (text o =s= "")

unfoldable pub with_os_version : OsMetadata → Option String → OsMetadata
unfolding strip
with_os_version os version =
    if has_text version
    then record os {
      operating_system_version = strip (codes (text version));
      version_detected = true;
    }
    else os

abbrev pub upper : ℕ → ℕ
upper c = if leb b'a' c && leb c b'z' then c - 32 else c

-- What follows a prefix.
abbrev pub after_prefix : Bytes → Bytes → Option Bytes
after_prefix [] cs = some cs
after_prefix (p ∷ ps) [] = none
after_prefix (p ∷ ps) (c ∷ cs) = if p == c then after_prefix ps cs else none

abbrev pub starts_with_digit : Option Bytes → Bool
starts_with_digit (some (c ∷ cs)) = leb b'0' c && leb c b'9'
starts_with_digit _ = false

-- The expression `^(VM|BM)\.STANDARD\.A\d`
unfoldable pub is_arm_shape : String → Bool
is_arm_shape shape =
    let name = map upper (codes shape) in
    starts_with_digit (after_prefix (codes "VM.STANDARD.A") name)
    || starts_with_digit (after_prefix (codes "BM.STANDARD.A") name)

unfoldable pub is_bare_metal_shape : String → Bool
is_bare_metal_shape shape = elim (after_prefix (codes "BM.") (map upper (codes shape))) [
  | none ↦ false
  | some rest ↦ true
]

-- ===== src/Windows/Detect.antt =====
-- packaging/windows/os_detect.py: `classify`, from the build number and the edition to the strategy.
use userfreezer.Prelude.{ℕ, Bool, ◌&&◌, List, [], ◌∷◌, map, any_of, if◌then◌else◌, leb, ltb, nat_eq}
use userfreezer.Prelude.{String}
use userfreezer.Prelude.Text.{Text, codes, ◌==◌}

pub data Version : Type 0 where
  seven eight eight_one ten eleven before_seven unknown_version : Version

pub data Strategy : Type 0 where
  uwf ewf_fbwf vhdx_diff unsupported : Strategy

-- `_windows_version_from_build`
unfoldable pub version_from_build : ℕ → Version
version_from_build build =
    if nat_eq build 7600
    then seven
    else if nat_eq build 7601
    then seven
    else if nat_eq build 9200
    then eight
    else if nat_eq build 9600
    then eight_one
    else if leb 22000 build
    then eleven
    else if leb 10240 build && ltb build 22000
    then ten
    else if ltb 0 build && ltb build 7600
    then before_seven
    else unknown_version

abbrev pub member : Text → List String → Bool
member name names = any_of (λ n. n == name) (map codes names)

abbrev pub native_ten : List String
native_ten =
    "Enterprise" ∷ "EnterpriseN" ∷ "EnterpriseS" ∷ "EnterpriseSN" ∷ "Education" ∷ "EducationN"
    ∷ "IoTEnterprise" ∷ "IoTEnterpriseS" ∷ "IoTEnterpriseK" ∷ "IoTEnterpriseSK" ∷ []

abbrev pub native_seven : List String
native_seven =
    "Embedded" ∷ "EmbeddedStandard" ∷ "WindowsEmbeddedStandard" ∷ "PosReady" ∷ "POSReady" ∷ []

abbrev pub strategy_of : Version → Text → Strategy
strategy_of before_seven edition = unsupported
strategy_of unknown_version edition = unsupported
strategy_of eight edition = unsupported
strategy_of eight_one edition = unsupported
strategy_of ten edition = if member edition native_ten then uwf else vhdx_diff
strategy_of eleven edition = if member edition native_ten then uwf else vhdx_diff
strategy_of seven edition = if member edition native_seven then ewf_fbwf else unsupported

-- The strategy of `classify`.
unfoldable pub classify : ℕ → Text → Strategy
classify build edition = strategy_of (version_from_build build) edition

-- ===== src/Schema/Texts.antt =====
-- `generateStringValidation`, `generateWellKnownPattern` and `generateBytesValidation`.
use Prim.Native.String.{String}
use grpcmcp.Base.{is_some, Bool, ◌&&◌, ◌||◌, Option, none, some, List, [], ◌∷◌, if◌then◌else◌}
use grpcmcp.Base.Int.{pos}
use grpcmcp.Base.Texts.{◌⧺◌}
use grpcmcp.Schema.Bytes.{Lengths, bytes_lengths, string_lengths}
use grpcmcp.Schema.Json.{text, whole, array, Entries, put, put_some, text_items}
use grpcmcp.Schema.Fields.{
  Options, TextRules, WellKnown, not_well_known, hostname, email, ip, ipv4, ipv6, uri, uri_ref,
  address, uuid, tuuid, ipv4_with_prefixlen, ipv6_with_prefixlen, ip_with_prefixlen, ipv4_prefix,
  ipv6_prefix, ip_prefix, host_and_port, well_known_regex, Rules, TypeRules, string_rules,
  bytes_rules, Field, required, type_rules, generate_default,
}

abbrev ipv4_pattern_bit : String
ipv4_pattern_bit =
    "((25[0-5]|2[0-4][0-9]|[01]?[0-9][0-9]?)\\.){3}(25[0-5]|2[0-4][0-9]|[01]?[0-9][0-9]?)"

abbrev ipv6_pattern_bit : String
ipv6_pattern_bit =
    "(([0-9a-fA-F]{1,4}::?){1,7}([0-9a-fA-F]{1,4})|([0-9a-fA-F]{1,4}:){1,7}:|:((([0-9a-fA-F]{1,4}:){1,6})?[0-9a-fA-F]{1,4})?|::)"

abbrev ipv4_len_pattern_bit : String
ipv4_len_pattern_bit = "/([0-9]|[12][0-9]|3[0-2])"

abbrev ipv6_len_pattern_bit : String
ipv6_len_pattern_bit = "/([0-9]|[1-9][0-9]|1[0-1][0-9]|12[0-8])"

abbrev port_pattern_bit : String
port_pattern_bit =
    "([1-9][0-9]{0,4}|[1-5][0-9]{4}|6[0-4][0-9]{3}|65[0-4][0-9]{2}|655[0-2][0-9]|6553[0-5])"

abbrev hostname_pattern_bit : String
hostname_pattern_bit = "[A-Za-z0-9][A-Za-z0-9-]{0,63}(\\.[A-Za-z0-9-][A-Za-z0-9-]{0,63})*"

abbrev ipv4_pattern : String
ipv4_pattern = "^" ⧺ ipv4_pattern_bit ⧺ "$"

abbrev ipv6_pattern : String
ipv6_pattern = "^" ⧺ ipv6_pattern_bit ⧺ "$"

abbrev hostname_pattern : String
hostname_pattern = "^" ⧺ hostname_pattern_bit ⧺ "$"

abbrev uri_pattern : String
uri_pattern =
    "^(?:(?:[a-zA-Z][a-zA-Z\\d+\\-.]*):)?(?://(?:[A-Za-z0-9\\-\\.]+(?::\\d+)?))?(/[^\\?#]*)?(?:\\?([^\\#]*))?(?:\\#(.*))?$"

abbrev uri_ref_pattern : String
uri_ref_pattern =
    "^(?:(?:[a-zA-Z][a-zA-Z\\d+\\-.]*):)?(?:\\/\\/(?:[A-Za-z0-9\\-\\.]+(?::\\d+)?))?(/[^\\?#]*)?(?:\\?([^\\#]*))?(?:\\#(.*))?$"

abbrev uuid_pattern : String
uuid_pattern = "^[0-9a-fA-F]{8}-[0-9a-fA-F]{4}-[0-9a-fA-F]{4}-[0-9a-fA-F]{4}-[0-9a-fA-F]{12}$"

abbrev tuuid_pattern : String
tuuid_pattern = "^[0-9a-fA-F]{32}$"

abbrev ipv4_prefix_len_pattern : String
ipv4_prefix_len_pattern = "^" ⧺ ipv4_pattern_bit ⧺ ipv4_len_pattern_bit ⧺ "$"

abbrev ipv6_prefix_len_pattern : String
ipv6_prefix_len_pattern = "^" ⧺ ipv6_pattern_bit ⧺ ipv6_len_pattern_bit ⧺ "$"

abbrev ipv4_prefix_pattern : String
ipv4_prefix_pattern = "^((25[0-5]|2[0-4][0-9]|[01]?[0-9][0-9]?)\\.){3}0/([0-9]|[12][0-9]|3[0-2])$"

abbrev ipv6_prefix_pattern : String
ipv6_prefix_pattern = "^(([0-9a-fA-F]{1,4}:){1,7}:|::)/([0-9]|[1-9][0-9]|1[0-1][0-9]|12[0-8])$"

abbrev host_and_port_pattern : String
host_and_port_pattern =
    "^(" ⧺ hostname_pattern_bit ⧺ "|" ⧺ ipv4_pattern_bit ⧺ "|\\[" ⧺ ipv6_pattern_bit ⧺ "\\]):"
    ⧺ port_pattern_bit ⧺ "$"

-- Go writes the grave accent of this pattern as \x60
abbrev header_name_pattern : String
header_name_pattern = "^:?[0-9a-zA-Z!#$%&\\'*+-.^_|~\\x60]+$"

-- `schema[key] = value` behind the test of the rule's own value
abbrev put_if : Bool → String → String → Entries → Entries
put_if b key value schema = if b then put key (text value) schema else schema

-- `strict` is `rules.GetString().GetStrict()`
pub generate_well_known_pattern : WellKnown → Bool → Entries → Entries
generate_well_known_pattern not_well_known strict s = s
generate_well_known_pattern (hostname b) strict s = put_if b "pattern" hostname_pattern s
generate_well_known_pattern (email b) strict s = put_if b "format" "email" s
generate_well_known_pattern (ip b) strict s =
    put_if b "pattern" (ipv4_pattern ⧺ "|" ⧺ ipv6_pattern) s
generate_well_known_pattern (ipv4 b) strict s = put_if b "format" "ipv4" s
generate_well_known_pattern (ipv6 b) strict s = put_if b "format" "ipv6" s
generate_well_known_pattern (uri b) strict s = put_if b "pattern" uri_pattern s
generate_well_known_pattern (uri_ref b) strict s = put_if b "pattern" uri_ref_pattern s
generate_well_known_pattern (address b) strict s =
    put_if b "pattern" (ipv4_pattern ⧺ "|" ⧺ ipv6_pattern ⧺ "|" ⧺ hostname_pattern) s
generate_well_known_pattern (uuid b) strict s = put_if b "pattern" uuid_pattern s
generate_well_known_pattern (tuuid b) strict s = put_if b "pattern" tuuid_pattern s
generate_well_known_pattern (ipv4_with_prefixlen b) strict s =
    put_if b "pattern" ipv4_prefix_len_pattern s
generate_well_known_pattern (ipv6_with_prefixlen b) strict s =
    put_if b "pattern" ipv6_prefix_len_pattern s
generate_well_known_pattern (ip_with_prefixlen b) strict s =
    put_if b "pattern" (ipv4_prefix_len_pattern ⧺ "|" ⧺ ipv6_prefix_len_pattern) s
generate_well_known_pattern (ipv4_prefix b) strict s = put_if b "pattern" ipv4_prefix_pattern s
generate_well_known_pattern (ipv6_prefix b) strict s = put_if b "pattern" ipv6_prefix_pattern s
generate_well_known_pattern (ip_prefix b) strict s =
    put_if b "pattern" (ipv4_prefix_pattern ⧺ "|" ⧺ ipv6_prefix_pattern) s
generate_well_known_pattern (host_and_port b) strict s = put_if b "pattern" host_and_port_pattern s
generate_well_known_pattern (well_known_regex b) strict s =
    put_if (b && strict) "pattern" header_name_pattern s

abbrev or_empty : Option String → String
or_empty none = ""
or_empty (some s) = s

-- the pattern of `prefix`, `contains` and `suffix`, the texts standing in it as they are
pub affix_pattern : TextRules → String
affix_pattern r =
    (if is_some r.starts then "^" ⧺ or_empty r.starts else "")
    ⧺ ".*"
    ⧺ (if is_some r.contains then or_empty r.contains ⧺ ".*" else "")
    ⧺ (if is_some r.ends then or_empty r.ends ⧺ "$" else "")

abbrev put_pattern : TextRules → Option String → Entries → Entries
put_pattern r (some pattern) s = put "pattern" (text pattern) s
put_pattern r none s =
    if is_some r.starts || is_some r.ends || is_some r.contains
    then put "pattern" (text (affix_pattern r)) s
    else s

abbrev put_in : List String → Entries → Entries
put_in [] s = s
put_in (v ∷ vs) s = put "enum" (array (text_items (v ∷ vs))) s

abbrev put_const : TextRules → Option String → Entries → Entries
put_const r (some c) s = put "enum" (array (text_items (c ∷ []))) s
put_const r none s = put_in r.within s

abbrev put_lengths : Lengths → Entries → Entries
put_lengths l s =
    put_some "maxLength" (λ n. whole (pos n)) l.max_length
      (put_some "minLength" (λ n. whole (pos n)) l.min_length s)

abbrev put_text_rules : TypeRules → Bool → Entries → Entries
put_text_rules (string_rules r) required s = put_const r r.const (
    put_pattern r r.pattern (
      generate_well_known_pattern r.well_known r.strict
        (put_lengths (string_lengths (some r.lengths) required) s)))
put_text_rules _ required s = s

unfoldable pub generate_string_validation :
    Options → Field → Bool → Option Rules → Entries → Entries
unfolding generate_default generate_well_known_pattern affix_pattern
generate_string_validation p field implicit_presence rules schema =
    put_text_rules (type_rules rules) (required rules)
      (generate_default p field implicit_presence rules (put "type" (text "string") schema))

abbrev put_bytes_rules : TypeRules → Bool → Entries → Entries
put_bytes_rules (bytes_rules r) required s = put_lengths (bytes_lengths (some r) required) s
put_bytes_rules _ required s = s

pub generate_bytes_validation : Options → Field → Bool → Option Rules → Entries → Entries
unfolding generate_default
generate_bytes_validation p field implicit_presence rules schema =
    put_bytes_rules (type_rules rules) (required rules) (
      generate_default p field implicit_presence rules
        (put "pattern" (text "^[A-Za-z0-9+/]*={0,2}$") (put "type" (text "string") schema)))

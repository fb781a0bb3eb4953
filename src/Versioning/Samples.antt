-- ===== src/Versioning/Samples.antt =====
-- Versions that are read, refused and taken.
use pgproof.Common.{String, Bool, true, false, ok, raise, ◌≡◌, refl, ◌↔◌, ◌⊎◌}
use pgproof.Versioning.Defs.{
  SchemaVersion, text, parse_schema_version, require_supported, is_compatible, supported_major,
  not_a_version, incompatible,
}
use pgproof.Versioning.RoundTrip.{parse_schema_version-text}
use pgproof.Versioning.Canonical.{followed, parse_schema_version-cases}

abbrev newer_minor : SchemaVersion
newer_minor = record { major = 1; minor = 12 }

program : Unit {0}
unfolding is_compatible text pgproof.Common.text_dec
program = tt

written : text newer_minor ≡ "1.12"
unfolding program
written = refl

leading_zero : parse_schema_version "1.03" ≡ raise not_a_version
unfolding program
leading_zero = refl

no_minor : parse_schema_version "1" ≡ raise not_a_version
unfolding program
no_minor = refl

other_major : require_supported "2.0" ≡ raise incompatible
unfolding program
other_major = refl

-- `$` holds before a newline that ends the text, so that the newline is let through.
newline_behind : parse_schema_version "1.3\n" ≡ ok (record { major = 1; minor = 3 })
unfolding program
newline_behind = refl

parse_schema_version-text_example :
    (parse_schema_version (text newer_minor) ≡ ok newer_minor)
    × ((require_supported (text newer_minor) ≡ ok newer_minor)
        ↔ (newer_minor.major ≡ supported_major))
    × ((is_compatible (text newer_minor) ≡ true) ↔ (newer_minor.major ≡ supported_major))
parse_schema_version-text_example = parse_schema_version-text newer_minor

abbrev current : SchemaVersion
current = record { major = 1; minor = 3 }

parse_schema_version-cases_example :
    (parse_schema_version "1.3\n" ≡ ok current)
    ↔ (("1.3\n" ≡ text current) ⊎ ("1.3\n" ≡ followed current "\n"))
parse_schema_version-cases_example = parse_schema_version-cases "1.3\n" current

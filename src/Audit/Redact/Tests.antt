-- ===== src/Audit/Redact/Tests.antt =====
-- Tests of the redaction on details that hold a password and an address with credentials.
use knxvault.Prelude.{◌≡◌, ◌↔◌, refl, true, some, codes}
use knxvault.Audit.Redact.{
  text, other, Fields, end_fields, field, redacted, sanitize_map, sanitize_details, accepts_details,
}
use knxvault.Audit.Redact.Clean.{IsCleanMap, others_map, sanitize_details-IsClean}

abbrev details : Fields
details = field (codes " Password") (other (codes "1")) (
    field (codes "to") (text (codes "db://u:p@h"))
      (field (codes "paths") (other (codes "[db://u:p@h]")) end_fields))

sanitize_map_test :
    sanitize_map details
    ≡ field (codes " Password") (text redacted) (
        field
          (codes "to")
          (text redacted)
          (field (codes "paths") (other (codes "[db://u:p@h]")) end_fields))
unfolding sanitize_map knxvault.Prelude.elem knxvault.Prelude.Text-discrete
    knxvault.Secrets.Paths.to_lower knxvault.Secrets.Paths.trim_space knxvault.Prelude.has_prefix
    knxvault.Prelude.contains_byte
sanitize_map_test = refl

sanitize_details-IsClean_example :
    IsCleanMap (sanitize_map details)
    × (IsCleanMap details ↔ sanitize_details (some details) ≡ some details)
    × (sanitize_details (sanitize_details (some details)) ≡ sanitize_details (some details))
    × (others_map (sanitize_map details) ≡ others_map details)
sanitize_details-IsClean_example = sanitize_details-IsClean details

abbrev harmless : Fields
harmless = field (codes "path") (text (codes "app/x")) end_fields

accepts_test : accepts_details (some harmless) ≡ true
unfolding accepts_details knxvault.Prelude.elem knxvault.Prelude.Text-discrete
    knxvault.Secrets.Paths.to_lower knxvault.Secrets.Paths.trim_space knxvault.Prelude.has_prefix
accepts_test = refl

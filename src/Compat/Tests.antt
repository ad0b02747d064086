-- ===== src/Compat/Tests.antt =====
-- Runs of src/protocol_compat.rs, and its theorems at them.
use minecraft_team_viewer_ba.Compat.Rules.{active_rules_iff, from_version-newest}
use minecraft_team_viewer_ba.Compat.Epoch.{
  ProtocolEpoch, active_for, disable_tab_history, epoch_version, find_epoch, from_version,
  introduced_in,
}
use minecraft_team_viewer_ba.Compat.Negotiation.{Decides, negotiate-Decides}
use minecraft_team_viewer_ba.Compat.Profile.{
  ProtocolProfile, active_rules, agree, compatibility_rule_count, filter_rules, negotiate,
  negotiate_versions, supports_tab_history,
}
use minecraft_team_viewer_ba.Prelude.{Member, false, none, refl, some, true, ◌↔◌, ◌≡◌}
use minecraft_team_viewer_ba.Prelude.Text.{
  codes, is_whitespace, nat_key, text_key, trim, trim_start,
}
use minecraft_team_viewer_ba.Compat.Version.{
  all_digits, decimal, from_parts, from_str, is_ascii_digit, onto_first, parse_part, parse_u32,
  split_dots, version, version_leb, version_ltb, version_min,
}

program : Unit {0}
unfolding from_str from_parts parse_part all_digits is_ascii_digit parse_u32 decimal split_dots
    onto_first trim trim_start is_whitespace version_ltb version_min agree negotiate
    negotiate_versions from_version find_epoch epoch_version active_rules filter_rules active_for
    introduced_in compatibility_rule_count supports_tab_history
program = tt

from_str-trimmed : from_str (codes " 0.7.10 ") ≡ some (version 0 7 10)
unfolding program
from_str-trimmed = refl

from_str-short : from_str (codes "0.7") ≡ none
unfolding program
from_str-short = refl

abbrev old_profile : ProtocolProfile
old_profile = agree (version 0 6 4) (version 0 6 1)

abbrev new_profile : ProtocolProfile
new_profile = agree (version 0 9 5) (version 0 8 0)

old_rule_count : compatibility_rule_count old_profile ≡ 4
unfolding program
old_rule_count = refl

negotiate-Decides_example :
    Decides (version 0 9 5) (version 0 8 0) (negotiate (codes "0.9.5") (codes "0.8.0"))
unfolding program
negotiate-Decides_example =
    negotiate-Decides (codes "0.9.5") (codes "0.8.0") (version 0 9 5) (version 0 8 0) refl refl

from_version-newest_example :
    (version_leb (epoch_version (from_version (version 0 7 3))) (version 0 7 3) ≡ true)
    × ((e : ProtocolEpoch)
        → version_leb (epoch_version e) (version 0 7 3) ≡ true
        → version_leb (epoch_version e) (epoch_version (from_version (version 0 7 3))) ≡ true)
unfolding version_ltb
from_version-newest_example = from_version-newest (version 0 7 3) refl

active_rules_iff_example :
    Member disable_tab_history (active_rules old_profile)
    ↔ (supports_tab_history old_profile ≡ false)
active_rules_iff_example = active_rules_iff old_profile disable_tab_history

-- ===== src/Tab/Tests.antt =====
-- A run of the check of formatted texts of src/tab_history.rs, and the theorem at it.
use minecraft_team_viewer_ba.Battle.Update.{is_empty}
use minecraft_team_viewer_ba.Snapshot.Types.{FormattedText, FormattedTextSpan}
use minecraft_team_viewer_ba.Tab.{
  Span-discrete, byte_len, checked, concat_texts, expected_text, merge_spans, plain_span, push_span,
  same_style, sanitize_formatted, utf8_width,
}
use minecraft_team_viewer_ba.Tab.Formatted.{AllWellFormed, sanitize_formatted-IsWellFormed}
use minecraft_team_viewer_ba.Prelude.{[], refl, some, true, ℕ_discrete, ◌∷◌, ◌≡◌}
use minecraft_team_viewer_ba.Prelude.Text.{Text, Text-discrete, codes, nat_key, text_key}

abbrev bold : Text → FormattedTextSpan
bold text = record (plain_span text) { bold = some true }

-- Two spans of one style next to each other, and an empty one.
abbrev greeting : FormattedText
greeting = record {
  plain_text = [];
  spans = bold (codes "He") ∷ bold [] ∷ bold (codes "y") ∷ plain_span (codes "!") ∷ [];
}

greeting-merged :
    sanitize_formatted (some greeting) (some (codes "Hey!"))
    ≡ some (record {
      plain_text = codes "Hey!";
      spans = bold (codes "Hey") ∷ plain_span (codes "!") ∷ [];
    })
unfolding sanitize_formatted checked merge_spans push_span same_style Span-discrete concat_texts
    expected_text is_empty byte_len utf8_width Text-discrete ℕ_discrete
greeting-merged = refl

sanitize_formatted-IsWellFormed_example :
    AllWellFormed (sanitize_formatted (some greeting) (some (codes "Hey!")))
sanitize_formatted-IsWellFormed_example =
    sanitize_formatted-IsWellFormed (some greeting) (some (codes "Hey!"))

-- ===== src/Tab.antt =====
-- The tab list entries that src/tab_history.rs stores: texts are cut to a length, and formatted texts are
-- checked against their plain text.
pub mod Formatted
pub mod Tests
use minecraft_team_viewer_ba.Battle.Update.{is_empty}
use minecraft_team_viewer_ba.Snapshot.Types.{FormattedText, FormattedTextSpan, TabPlayerEntry}
use minecraft_team_viewer_ba.Prelude.{
  Bool, List, Option, [], false, if◌then◌else◌, ite, leb, length, ltb, map_option, none, some, true,
  unwrap_or, ℕ, ℕ_discrete, ◌++◌, ◌+◌, ◌-◌, ◌∷◌,
}
use minecraft_team_viewer_ba.Prelude.Text.{Text, Text-discrete, nat_key, text_key, trim}

-- The number of bytes of a code point in UTF-8, and of a text.
unfoldable pub utf8_width : ℕ → ℕ
utf8_width c = if ltb c 0x80 then 1 else if ltb c 0x800 then 2 else if ltb c 0x10000 then 3 else 4

unfoldable pub byte_len : Text → ℕ
unfolding utf8_width
byte_len [] = 0
byte_len (c ∷ cs) = utf8_width c + byte_len cs

-- The characters that end within `max_bytes`: the last boundary that is not behind it.
unfoldable pub cut : ℕ → Text → Text
unfolding utf8_width
cut max_bytes [] = []
cut max_bytes (c ∷ cs) =
    let rest = cut (max_bytes - utf8_width c) cs in
    if leb (utf8_width c) max_bytes then c ∷ rest else []

unfoldable pub truncate : ℕ → Option Text → Option Text
unfolding byte_len cut
truncate max_bytes none = none
truncate max_bytes (some value) =
    if leb (byte_len value) max_bytes then some value else some (cut max_bytes value)

-- `FormattedTextSpan { text, ..Default::default() }`
abbrev pub plain_span : Text → FormattedTextSpan
plain_span text = record {
  text = text;
  color_argb = none;
  shadow_color_argb = none;
  bold = none;
  italic = none;
  underlined = none;
  strikethrough = none;
  obfuscated = none;
  font_id = none;
}

unfoldable pub plain_formatted : Text → FormattedText
plain_formatted value = record {
  plain_text = value;
  spans = if is_empty value then [] else plain_span value ∷ [];
}

unfoldable pub Span-discrete : Discrete FormattedTextSpan
unfolding ℕ_discrete
Span-discrete = hlevel ℕ_discrete

-- `previous_style == style`: all fields but the text.
unfoldable pub same_style : FormattedTextSpan → FormattedTextSpan → Bool
unfolding Span-discrete
same_style a b = ite (Span-discrete (record a { text = [] }) (record b { text = [] })) true false

-- `spans.last_mut()`, with the text put behind its own, or a new span.
unfoldable pub push_span : FormattedTextSpan → List FormattedTextSpan → List FormattedTextSpan
unfolding same_style
push_span span [] = span ∷ []
push_span span (last ∷ []) =
    if same_style last span
    then record last { text = last.text ++ span.text } ∷ []
    else last ∷ span ∷ []
push_span span (first ∷ second ∷ spans) = first ∷ push_span span (second ∷ spans)

abbrev pub max_span_bytes : ℕ
max_span_bytes = 4096

abbrev pub max_spans : ℕ
max_spans = 64

-- The loop over the spans; `none` where it returns the fallback.
unfoldable pub merge_spans :
    List FormattedTextSpan → ℕ → List FormattedTextSpan → Option (List FormattedTextSpan)
unfolding byte_len push_span
merge_spans [] bytes spans = some spans
merge_spans (span ∷ rest) bytes spans =
    let skipped = merge_spans rest bytes spans in
    let merged = merge_spans rest (bytes + byte_len span.text) (push_span span spans) in
    if is_empty span.text
    then skipped
    else if ltb max_span_bytes (bytes + byte_len span.text)
    then none
    else if leb max_spans (length spans)
    then none
    else merged

-- The texts of the spans, one behind the other.
unfoldable pub concat_texts : List FormattedTextSpan → Text
concat_texts [] = []
concat_texts (span ∷ spans) = span.text ++ concat_texts spans

-- What the spans are to spell.
unfoldable pub expected_text : Text → Option Text → Text
expected_text plain_text fallback =
    if is_empty plain_text then unwrap_or fallback [] else plain_text

-- The end of the function, from the merged spans.
unfoldable pub checked :
    FormattedText → Option Text → Option (List FormattedTextSpan) → Option FormattedText
unfolding plain_formatted concat_texts expected_text
checked value fallback none = map_option plain_formatted fallback
checked value fallback (some spans) =
    let expected = expected_text value.plain_text fallback in
    ite (Text-discrete (concat_texts spans) expected)
      (some (record { plain_text = concat_texts spans; spans = spans }))
      (some (plain_formatted (unwrap_or fallback expected)))

unfoldable pub sanitize_formatted : Option FormattedText → Option Text → Option FormattedText
unfolding merge_spans checked
sanitize_formatted none fallback = none
sanitize_formatted (some value) fallback = checked value fallback (merge_spans value.spans 0 [])

abbrev pub or_option : {A : Type 0} → Option A → Option A → Option A
or_option none other = other
or_option (some a) other = some a

-- `normalize_uuid` is a parameter.
unfoldable pub sanitize_texts : TabPlayerEntry → Text → TabPlayerEntry
unfolding truncate
sanitize_texts raw uuid =
    let prefix = truncate 4096 raw.scoreboard_prefix in
    let name = truncate 4096 raw.prefixed_name in
    record raw {
      uuid = some uuid;
      name = truncate 256 raw.name;
      display_name = truncate 4096 raw.display_name;
      scoreboard_team_id = truncate 256 raw.scoreboard_team_id;
      scoreboard_suffix = truncate 4096 raw.scoreboard_suffix;
      scoreboard_prefix = or_option prefix name;
      prefixed_name = or_option name prefix;
    }

unfoldable pub sanitize_formats : TabPlayerEntry → TabPlayerEntry
unfolding sanitize_formatted
sanitize_formats p = record p {
  formatted_display_name = sanitize_formatted p.formatted_display_name p.display_name;
  formatted_scoreboard_prefix =
      sanitize_formatted p.formatted_scoreboard_prefix p.scoreboard_prefix;
  formatted_scoreboard_suffix =
      sanitize_formatted p.formatted_scoreboard_suffix p.scoreboard_suffix;
}

unfoldable pub sanitize_player : (Text → Option Text) → TabPlayerEntry → Option TabPlayerEntry
unfolding sanitize_texts sanitize_formats
sanitize_player normalize_uuid raw = elim raw.uuid [
  | none ↦ none
  | some uuid ↦ map_option (λ u. sanitize_formats (sanitize_texts raw u)) (normalize_uuid uuid)
]

-- 0 without a name to show, 1 when it only repeats the prefix.
unfoldable pub display_label_quality : TabPlayerEntry → ℕ
display_label_quality entry =
    let display = trim (unwrap_or entry.display_name []) in
    let prefix = trim (unwrap_or (or_option entry.scoreboard_prefix entry.prefixed_name) []) in
    if is_empty display
    then 0
    else ite (Text-discrete display prefix) (if is_empty prefix then 2 else 1) 2

-- ===== src/Tab/Formatted.antt =====
-- What `sanitize_formatted` of src/tab_history.rs lets through.
use minecraft_team_viewer_ba.Battle.Update.{is_empty}
use minecraft_team_viewer_ba.Snapshot.Types.{FormattedText, FormattedTextSpan}
use minecraft_team_viewer_ba.Tab.{
  byte_len, checked, concat_texts, expected_text, max_span_bytes, max_spans, merge_spans,
  plain_formatted, push_span, sanitize_formatted,
}
use minecraft_team_viewer_ba.Prelude.{
  Bool-cases, List, Option, [], ap, arith, inl, inr, ite, leb, length, ltb, map_option, none, refl,
  some, suc, unwrap_or, ℕ, ◌++◌, ◌+◌, ◌∷◌, ◌≡◌, ◌≤◌,
}
use minecraft_team_viewer_ba.Prelude.Text.{Text, Text-discrete, nat_key, text_key}

pub record IsWellFormed (value : FormattedText) : Type 0 where
  pub spelled : concat_texts value.spans ≡ value.plain_text
  pub bounded : length value.spans ≤ max_spans

-- If there is a result, it is well-formed.
abbrev pub AllWellFormed : Option FormattedText → Type 0
AllWellFormed none = Unit
AllWellFormed (some value) = IsWellFormed value

length-push_span :
    (span : FormattedTextSpan) (spans : List FormattedTextSpan)
    → length (push_span span spans) ≤ suc (length spans)
unfolding push_span
length-push_span span [] = omega arith
length-push_span span (last ∷ []) = ground arith
length-push_span span (first ∷ second ∷ spans) =
    omega (arith, length-push_span span (second ∷ spans))

abbrev FewSpans : Option (List FormattedTextSpan) → Type 0
FewSpans none = Unit
FewSpans (some spans) = length spans ≤ max_spans

merge_spans-FewSpans :
    (rest : List FormattedTextSpan) (bytes : ℕ) (spans : List FormattedTextSpan)
    → length spans ≤ max_spans
    → FewSpans (merge_spans rest bytes spans)
unfolding merge_spans
merge_spans-FewSpans [] bytes spans le = le
merge_spans-FewSpans (span ∷ rest) bytes spans le = elim (Bool-cases (is_empty span.text)) [
  | inl e ↦ rw e (merge_spans-FewSpans rest bytes spans le)
  | inr e ↦ elim (Bool-cases (ltb max_span_bytes (bytes + byte_len span.text))) [
    | inl long ↦ rw (e, long) tt
    | inr fits ↦ elim (Bool-cases (leb max_spans (length spans))) [
      | inl many ↦ rw (e, fits, many) tt
      | inr few ↦
          rw (e, fits, few)
            (merge_spans-FewSpans rest (bytes + byte_len span.text) (push_span span spans)
              (ground (arith, length-push_span span spans)))
    ]
  ]
]

append-nil : {A : Type 0} (xs : List A) → xs ++ [] ≡ xs
append-nil [] = refl
append-nil (x ∷ xs) = ap (◌∷◌ x) (append-nil xs)

plain_formatted-IsWellFormed : (value : Text) → IsWellFormed (plain_formatted value)
unfolding plain_formatted concat_texts is_empty
plain_formatted-IsWellFormed [] = record { spelled = refl; bounded = omega arith }
plain_formatted-IsWellFormed (c ∷ cs) = record {
  spelled = append-nil (c ∷ cs);
  bounded = omega arith;
}

plain_option-AllWellFormed :
    (fallback : Option Text) → AllWellFormed (map_option plain_formatted fallback)
plain_option-AllWellFormed none = tt
plain_option-AllWellFormed (some value) = plain_formatted-IsWellFormed value

checked-AllWellFormed :
    (value : FormattedText) (fallback : Option Text) (spans : Option (List FormattedTextSpan))
    → FewSpans spans
    → AllWellFormed (checked value fallback spans)
unfolding checked
checked-AllWellFormed value fallback none few = plain_option-AllWellFormed fallback
checked-AllWellFormed value fallback (some spans) few =
    elim (Text-discrete (concat_texts spans) (expected_text value.plain_text fallback))
      as (λ d. AllWellFormed (
        ite d (some (record { plain_text = concat_texts spans; spans = spans })) (
          some (plain_formatted (unwrap_or fallback (expected_text value.plain_text fallback)))))) [
            | yes e ↦ record { spelled = refl; bounded = few }
            | no n ↦ plain_formatted-IsWellFormed _
          ]

-- A formatted text that is stored has spans that spell its plain text, and at most 64 of them, whatever a
-- client reported and whatever the fallback is.
pub sanitize_formatted-IsWellFormed :
    (value : Option FormattedText) (fallback : Option Text)
    → AllWellFormed (sanitize_formatted value fallback)
unfolding sanitize_formatted
sanitize_formatted-IsWellFormed none fallback = tt
sanitize_formatted-IsWellFormed (some value) fallback =
    checked-AllWellFormed value fallback (merge_spans value.spans 0 [])
      (merge_spans-FewSpans value.spans 0 [] (omega arith))

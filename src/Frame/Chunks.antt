-- ===== src/Frame/Chunks.antt =====
-- `read_frames` of src/frame.rs does not depend on how the bytes of a stream are cut into reads.
use minecraft_team_viewer_ba.Frame.Scan.{split-complete, split-stable}
use minecraft_team_viewer_ba.Frame.{
  Drained, FrameScan, Read, breaks, chunk, complete, drain, drain_all, halts, incomplete, malformed,
  read_frames, read_from, split_frame_header, waits,
}
use mathlib.Core.List.{append_assoc, append-nil}
use mathlib.Core.Path.{ap₂}
use minecraft_team_viewer_ba.Prelude.{
  Bool, List, [], ap, arith, drop, drop-append, false, if◌then◌else◌, length, length-append,
  length-drop, refl, suc, sym, take, take-append, true, zero, ℕ, ◌++◌, ◌+◌, ◌<◌, ◌∙◌, ◌∷◌, ◌≡◌,
}

-- The reads of a stream that is cut into pieces that are not empty.
abbrev pub cut : List (ℕ × List ℕ) → List Read
cut [] = []
cut ((byte, bytes) ∷ pieces) = chunk (byte ∷ bytes) ∷ cut pieces

abbrev pub joined : List (ℕ × List ℕ) → List ℕ
joined [] = []
joined ((byte, bytes) ∷ pieces) = byte ∷ (bytes ++ joined pieces)

module _ {S : Type 0} (on_frame : S → List ℕ → S × Bool) where
  -- What the callback's answer to a frame leads to.
  abbrev pub answered : ℕ → S × Bool → List ℕ → Drained S
  answered f r buffer = if r.1 then drain on_frame f r.0 buffer else halts r.0

  pub drain-complete :
      (f : ℕ) (s : S) (buffer : List ℕ) (n m : ℕ)
      → split_frame_header buffer ≡ complete n m
      → drain on_frame (suc f) s buffer
        ≡ answered f (on_frame s (take m (drop n buffer))) (drop (n + m) buffer)
  unfolding drain
  drain-complete f s buffer n m e = rw (e, drain)

  drain-incomplete :
      (f : ℕ) (s : S) (buffer : List ℕ)
      → split_frame_header buffer ≡ incomplete
      → drain on_frame f s buffer ≡ waits s buffer
  unfolding drain
  drain-incomplete zero s buffer e = refl
  drain-incomplete (suc f) s buffer e = rw (e, drain)

  drain-malformed :
      (f : ℕ) (s : S) (buffer : List ℕ)
      → split_frame_header buffer ≡ malformed
      → drain on_frame (suc f) s buffer ≡ breaks s
  unfolding drain
  drain-malformed f s buffer e = rw (e, drain)

  -- More fuel than bytes changes nothing.
  pub drain_fuel :
      (f g : ℕ) (s : S) (buffer : List ℕ)
      → length buffer < f
      → length buffer < g
      → drain on_frame f s buffer ≡ drain on_frame g s buffer
  drain_fuel zero g s buffer h k = absurd (omega arith)
  drain_fuel (suc f) zero s buffer h k = absurd (omega arith)
  drain_fuel (suc f) (suc g) s buffer h k =
      by_scan (split_frame_header buffer) refl (drain_fuel f g)
    where
      by_scan :
          (scan : FrameScan)
          → split_frame_header buffer ≡ scan
          → ((s' : S) (rest : List ℕ)
              → length rest < f
              → length rest < g
              → drain on_frame f s' rest ≡ drain on_frame g s' rest)
          → drain on_frame (suc f) s buffer ≡ drain on_frame (suc g) s buffer
      by_scan (complete n m) e ih =
          let (positive, within, _, _) = split-complete buffer n m e in
          let r = on_frame s (take m (drop n buffer)) in
          let shorter = length-drop {0} (n + m) buffer in
          drain-complete f s buffer n m e
          ∙ ap (λ x. if r.1 then x else halts r.0)
              (ih r.0 (drop (n + m) buffer) (omega (arith, shorter)) (omega (arith, shorter)))
          ∙ sym (drain-complete g s buffer n m e)
      by_scan incomplete e ih =
          drain-incomplete (suc f) s buffer e ∙ sym (drain-incomplete (suc g) s buffer e)
      by_scan malformed e ih = drain-malformed f s buffer e ∙ sym (drain-malformed g s buffer e)

  -- The loop on what is left after more bytes arrive.
  abbrev then_with : List ℕ → Drained S → Drained S
  then_with tail (halts s) = halts s
  then_with tail (breaks s) = breaks s
  then_with tail (waits s rest) = drain_all on_frame s (rest ++ tail)

  -- Draining more bytes is draining the first of them, then going on with the rest.
  drain-append :
      (f g : ℕ) (s : S) (buffer tail : List ℕ)
      → length buffer < f
      → length (buffer ++ tail) < g
      → drain on_frame g s (buffer ++ tail) ≡ then_with tail (drain on_frame f s buffer)
  unfolding drain_all
  drain-append zero g s buffer tail h k = absurd (omega arith)
  drain-append (suc f) zero s buffer tail h k = absurd (omega arith)
  drain-append (suc f) (suc g) s buffer tail h k =
      by_scan (split_frame_header buffer) refl (drain-append f g)
    where
      by_scan :
          (scan : FrameScan)
          → split_frame_header buffer ≡ scan
          → ((s' : S) (rest more : List ℕ)
              → length rest < f
              → length (rest ++ more) < g
              → drain on_frame g s' (rest ++ more) ≡ then_with more (drain on_frame f s' rest))
          → drain on_frame (suc g) s (buffer ++ tail)
            ≡ then_with tail (drain on_frame (suc f) s buffer)
      by_scan (complete n m) e ih =
          let (positive, within, _, _) = split-complete buffer n m e in
          let shorter = length-drop {0} (n + m) buffer in
          let r = on_frame s (take m (drop n buffer)) in
          let rest = drop (n + m) buffer in
          let stable = split-stable buffer tail (rw e tt) ∙ e in
          let same_rest = drop-append (n + m) buffer tail (omega arith) in
          let same_frame =
            ap (take m) (drop-append n buffer tail (omega arith))
            ∙ take-append m (drop n buffer) tail (omega (arith, length-drop {0} n buffer)) in
          drain-complete g s (buffer ++ tail) n m stable
          ∙ ap₂ (λ frame more. answered g (on_frame s frame) more) same_frame same_rest
          ∙ branch g r rest (
              ih r.0 rest tail (omega (arith, shorter)) (
                omega (arith, shorter, length-append {0} rest tail, length-append {0} buffer tail)))
          ∙ sym (ap (then_with tail) (drain-complete f s buffer n m e))
        where
          branch :
              (d : ℕ) (r : S × Bool) (rest : List ℕ)
              → drain on_frame d r.0 (rest ++ tail) ≡ then_with tail (drain on_frame f r.0 rest)
              → answered d r (rest ++ tail) ≡ then_with tail (answered f r rest)
          branch d (s', true) rest e' = e'
          branch d (s', false) rest e' = refl
      by_scan incomplete e ih =
          rw (drain-incomplete (suc f) s buffer e)
            (drain_fuel (suc g) (suc (length (buffer ++ tail))) s (buffer ++ tail) k (omega arith))
      by_scan malformed e ih =
          rw (drain-malformed f s buffer e)
            (drain-malformed g s (buffer ++ tail) (split-stable buffer tail (rw e tt) ∙ e))

  pub drain_all-append :
      (s : S) (buffer tail : List ℕ)
      → drain_all on_frame s (buffer ++ tail) ≡ then_with tail (drain_all on_frame s buffer)
  unfolding drain_all
  drain_all-append s buffer tail =
      drain-append (suc (length buffer)) (suc (length (buffer ++ tail))) s buffer tail (omega arith)
        (omega arith)

  -- From any buffer, reading the pieces is reading their bytes at once.
  read_from-cut :
      (s : S) (buffer : List ℕ) (pieces : List (ℕ × List ℕ))
      → read_from on_frame s buffer (cut pieces) ≡ read_from on_frame s (buffer ++ joined pieces) []
  unfolding read_from
  read_from-cut s buffer [] = rw append-nil
  read_from-cut s buffer ((byte, bytes) ∷ pieces) =
      by_drain (drain_all on_frame s buffer) refl (λ s' b. read_from-cut s' b pieces)
    where
      tail : List ℕ
      tail = byte ∷ (bytes ++ joined pieces)

      by_drain :
          (d : Drained S)
          → drain_all on_frame s buffer ≡ d
          → ((s' : S) (b : List ℕ)
              → read_from on_frame s' b (cut pieces)
                ≡ read_from on_frame s' (b ++ joined pieces) [])
          → read_from on_frame s buffer (cut ((byte, bytes) ∷ pieces))
            ≡ read_from on_frame s (buffer ++ tail) []
      by_drain (halts s') e ih = rw (drain_all-append s buffer tail, e, read_from)
      by_drain (breaks s') e ih = rw (drain_all-append s buffer tail, e, read_from)
      by_drain (waits s' rest) e ih =
          rw (drain_all-append s buffer tail, e, read_from)
            (ih s' (rest ++ byte ∷ bytes)
              ∙ ap (λ b. read_from on_frame s' b [])
                  (append_assoc rest (byte ∷ bytes) (joined pieces)))

  -- Two ways to cut the same bytes into reads leave the same state and the same outcome, whatever the
  -- callback does.
  pub read_frames-cut :
      (s : S) (pieces others : List (ℕ × List ℕ))
      → joined pieces ≡ joined others
      → read_frames on_frame s (cut pieces) ≡ read_frames on_frame s (cut others)
  unfolding read_frames
  read_frames-cut s pieces others same =
      read_from-cut s [] pieces
      ∙ ap (λ b. read_from on_frame s b []) same
      ∙ sym (read_from-cut s [] others)

  pub read_frames-joined :
      (s : S) (pieces : List (ℕ × List ℕ))
      → read_frames on_frame s (cut pieces) ≡ read_from on_frame s (joined pieces) []
  unfolding read_frames
  read_frames-joined s pieces = read_from-cut s [] pieces

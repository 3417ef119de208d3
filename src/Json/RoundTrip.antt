-- ===== src/Json/RoundTrip.antt =====
-- Texts in UTF-8, written and read by encoding/json.
use golang_videoencoder_api.Prelude.{
  ℕ, zero, suc, ◌≤◌, Bytes, [], ◌∷◌, ◌++◌, append_assoc, some, length, length-append, ◌≡◌, refl, ap,
  ◌∙◌, arith,
}
use golang_videoencoder_api.Json.Strings.{
  quote, plain, string_step, scan_string, unquote, quote_body, read_string,
}
use golang_videoencoder_api.Json.Runes.{IsUtf8, end, rune}
use golang_videoencoder_api.Json.RuneTrip.{IsRune-Writable}

abbrev pub body : Bytes → Bytes
body s = quote_body (length s) s

-- What is written, rune by rune.
unfoldable written_text : {s : Bytes} → IsUtf8 s → Bytes
written_text end = []
written_text (rune c u) = (IsRune-Writable c).0 ++ written_text u

quote_body-written_text :
    {s : Bytes} (u : IsUtf8 s) (n : ℕ) → length s ≤ n → quote_body n s ≡ written_text u
unfolding quote_body written_text
quote_body-written_text end zero enough = refl
quote_body-written_text end (suc n) enough = refl
quote_body-written_text (rune {r} {s} c u) zero enough =
    absurd (omega (arith, enough, length-append r s, (IsRune-Writable c).1.taken))
quote_body-written_text (rune {r} {s} c u) (suc n) enough =
    let (w, written) = IsRune-Writable c in
    written.writes n s
    ∙ ap (λ (l : Bytes). w ++ l)
        (quote_body-written_text u n (omega (arith, enough, length-append r s, written.taken)))

scan_written_text :
    {s : Bytes} (u : IsUtf8 s) (rest : Bytes)
    → scan_string plain (written_text u ++ (quote ∷ rest)) ≡ some (written_text u, rest)
unfolding written_text
scan_written_text end rest = unfold scan_string string_step in refl
scan_written_text (rune {r} {s} c u) rest =
    let (w, written) = IsRune-Writable c in
    rw (append_assoc w (written_text u) (quote ∷ rest)) (
      written.scans (written_text u ++ (quote ∷ rest)) (written_text u) rest
        (scan_written_text u rest))

unquote-written_text :
    {s : Bytes} (u : IsUtf8 s) (n : ℕ)
    → length (written_text u) ≤ n
    → unquote n (written_text u) ≡ s
unfolding written_text
unquote-written_text end zero enough = unfold unquote in refl
unquote-written_text end (suc n) enough = unfold unquote in refl
unquote-written_text (rune {r} {s} c u) zero enough =
    let (w, written) = IsRune-Writable c in
    absurd (omega (arith, enough, length-append w (written_text u), written.given))
unquote-written_text (rune {r} {s} c u) (suc n) enough =
    let (w, written) = IsRune-Writable c in
    written.reads n (written_text u)
    ∙ ap (λ (l : Bytes). r ++ l)
        (unquote-written_text u n
          (omega (arith, enough, length-append w (written_text u), written.given)))

-- A written string, behind its opening quote, is read as the text, and what follows is left.
pub read_string-write_string :
    (s rest : Bytes) → IsUtf8 s → read_string (body s ++ (quote ∷ rest)) ≡ some (s, rest)
unfolding read_string
read_string-write_string s rest u =
    rw
      (
        quote_body-written_text u (length s) (omega arith),
        scan_written_text u rest,
        unquote-written_text u (length (written_text u)) (omega arith),
      )
      refl

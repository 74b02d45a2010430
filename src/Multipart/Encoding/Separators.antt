-- ===== src/Multipart/Encoding/Separators.antt =====
-- Where the parser finds the end of the headers that a reader sends.
use face2go_server.Base.{
  ℕ, suc, ◌+◌, ◌≤◌, ◌<◌, ◌^◌, ◌≡◌, ◌≢◌, ◌∙◌, refl, ap, none, some, [], ◌∷◌, ◌++◌, length, All,
  All-imp, arith, length-append,
}
use mathlib.Core.List.{append_assoc}
use face2go_server.Multipart.Bytes.{Bytes, index_of, starts_with, next_index}
use face2go_server.Multipart.Headers.{crlf_crlf, lf_lf, codes}
use face2go_server.Multipart.Search.{index_of_self, index_of-skip, index_of-skip_none}
use face2go_server.Multipart.Encoding.Parts.{IsTokenByte, header}
use face2go_server.Multipart.Encoding.Digits.{decimal_bytes, decimal-length}
use face2go_server.Multipart.Encoding.Lines.{
  IsPlain, LineRest, nothing, line_feed, whole, type_line, length_line, type_line-IsPlain,
  length_line-IsPlain,
}

header-append :
    (t : Bytes) (n : ℕ) (zs : Bytes)
    → header t n ++ zs ≡ type_line t ++ (13 ∷ 10 ∷ (length_line n ++ zs))
header-append t n zs = append_assoc (type_line t) (13 ∷ 10 ∷ length_line n) zs

length-header :
    (t : Bytes) (n : ℕ) → length (header t n) ≡ length (type_line t) + (2 + length (length_line n))
length-header t n = omega (arith, length-append (type_line t) (13 ∷ 10 ∷ length_line n))

pub header-short : (t : Bytes) (n : ℕ) → n < 2 ^ 53 → length (header t n) ≤ length t + 49
header-short t n h = omega (arith, length-header t n, decimal-length n h)

no_cr : (xs : Bytes) → All IsPlain xs → All (λ x. x ≢ 13) xs
no_cr xs h = All-imp IsPlain (λ x. x ≢ 13) (λ x p. p.1) xs h

no_lf : (xs : Bytes) → All IsPlain xs → All (λ x. x ≢ 10) xs
no_lf xs h = All-imp IsPlain (λ x. x ≢ 10) (λ x p. p.0) xs h

-- A line feed, or a line break, before a line that begins with `C` is no empty line.
after_lf :
    (zs : Bytes) (i : ℕ)
    → index_of crlf_crlf (67 ∷ zs) ≡ some i
    → index_of crlf_crlf (10 ∷ 67 ∷ zs) ≡ some (suc i)
unfolding index_of starts_with
after_lf zs i h = ap next_index h

after_crlf :
    (zs : Bytes) (i : ℕ)
    → index_of crlf_crlf (67 ∷ zs) ≡ some i
    → index_of crlf_crlf (13 ∷ 10 ∷ 67 ∷ zs) ≡ some (suc (suc i))
unfolding index_of starts_with
after_crlf zs i h = ap (λ o. next_index (next_index o)) h

after_rest :
    {left : Bytes} (zs : Bytes) (i : ℕ)
    → LineRest left
    → index_of crlf_crlf (67 ∷ zs) ≡ some i
    → index_of crlf_crlf (left ++ (67 ∷ zs)) ≡ some (length left + i)
after_rest zs i nothing h = h ∙ ap some (omega arith)
after_rest zs i line_feed h = after_lf zs i h ∙ ap some (omega arith)
after_rest zs i whole h = after_crlf zs i h ∙ ap some (omega arith)

-- The headers end at the first empty line.
pub index_of-header :
    {left : Bytes} (t : Bytes) (n : ℕ) (zs : Bytes)
    → LineRest left
    → All IsTokenByte t
    → (index_of crlf_crlf (left ++ (header t n ++ (crlf_crlf ++ zs)))
        ≡ some (length left + length (header t n)))
index_of-header {left} t n zs r h =
    let x = type_line t in
    let y = length_line n in
    let end = crlf_crlf ++ zs in
    let second =
      index_of-skip 13 (10 ∷ 13 ∷ 10 ∷ []) y end 0 (no_cr y (length_line-IsPlain n))
        (index_of_self 13 (10 ∷ 13 ∷ 10 ∷ []) zs) in
    let first =
      index_of-skip 13 (10 ∷ 13 ∷ 10 ∷ []) x (13 ∷ 10 ∷ (y ++ end)) (suc (suc (length y + 0)))
        (no_cr x (type_line-IsPlain t h))
        (after_crlf (codes "ontent-Length: " ++ (decimal_bytes n ++ end)) (length y + 0) second) in
    ap (λ l. index_of crlf_crlf (left ++ l)) (header-append t n end)
    ∙ after_rest (codes "ontent-Type: " ++ (t ++ (13 ∷ 10 ∷ (y ++ end))))
        (length x + suc (suc (length y + 0))) r first
    ∙ ap some (omega (arith, length-header t n))

rest_no_lf :
    {left : Bytes} (zs : Bytes)
    → LineRest left
    → index_of lf_lf (67 ∷ zs) ≡ none
    → index_of lf_lf (left ++ (67 ∷ zs)) ≡ none
unfolding index_of starts_with
rest_no_lf zs nothing h = h
rest_no_lf zs line_feed h = ap next_index h
rest_no_lf zs whole h = ap (λ o. next_index (next_index o)) h

broken_no_lf :
    (zs : Bytes) → index_of lf_lf (67 ∷ zs) ≡ none → index_of lf_lf (13 ∷ 10 ∷ 67 ∷ zs) ≡ none
unfolding index_of starts_with
broken_no_lf zs h = ap (λ o. next_index (next_index o)) h

end_no_lf : index_of lf_lf (13 ∷ 10 ∷ 13 ∷ []) ≡ none
unfolding index_of starts_with
end_no_lf = refl

-- Until their end is complete, no pair of line feeds is taken for it.
pub index_of-header-none :
    {left : Bytes} (t : Bytes) (n : ℕ)
    → LineRest left
    → All IsTokenByte t
    → index_of lf_lf (left ++ (header t n ++ (13 ∷ 10 ∷ 13 ∷ []))) ≡ none
index_of-header-none {left} t n r h =
    let x = type_line t in
    let y = length_line n in
    let end : Bytes = 13 ∷ 10 ∷ 13 ∷ [] in
    let second =
      index_of-skip_none 10 (10 ∷ []) y end (no_lf y (length_line-IsPlain n)) end_no_lf in
    let first =
      index_of-skip_none 10 (10 ∷ []) x (13 ∷ 10 ∷ (y ++ end)) (no_lf x (type_line-IsPlain t h))
        (broken_no_lf (codes "ontent-Length: " ++ (decimal_bytes n ++ end)) second) in
    ap (λ l. index_of lf_lf (left ++ l)) (header-append t n end)
    ∙ rest_no_lf (codes "ontent-Type: " ++ (t ++ (13 ∷ 10 ∷ (y ++ end)))) r first

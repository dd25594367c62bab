-- ===== src/Net/TcpAddr/Texts.antt =====
-- Addresses that are read from text, and addresses of sockets.
use fish_rpc.Prelude.{
  ltb, ◌==◌, lt→ltb, Option-cases, All, ℕ, ◌+◌, ◌-◌, ◌*◌, ◌^◌, ◌≤◌, ◌<◌, ◌≡◌, refl, sym, ap, ◌∙◌,
  inl, inr, true, false, Option, some, List, [], ◌∷◌, ◌++◌, arith,
}
use fish_rpc.Prelude.Outcome.{ok, ok-injective}
use fish_rpc.Prelude.Int.{pos}
use mathlib.Core.List.{reverse, reverse-cons}
use fish_rpc.Log.Decimal.{convert}
use fish_rpc.Log.Decimal.Digits.{IsDigit, value_of, value_of-digit}
use fish_rpc.Log.Decimal.Unsigned.{convert-pos, All-reverse}
use fish_rpc.Net.TcpAddr.{
  c_str, is_taken, split_colon, skip_spaces, leading, signed_number, atoi, avlid, of_ip_port,
  of_text, is_space, of_parts,
}

split_colon-append :
    (ip text : List ℕ)
    → All (λ c. (c == 58) ≡ false) ip
    → split_colon (ip ++ (58 ∷ text)) ≡ some (ip, text)
unfolding split_colon
split_colon-append [] text h = refl
split_colon-append (c ∷ cs) text (p, h) = rw (p, split_colon-append cs text h) refl

-- A text of digits has no zero in it, no space and no sign in front.
c_str-digits : (ds : List ℕ) → All IsDigit ds → c_str ds ≡ ds
unfolding c_str
c_str-digits [] h = refl
c_str-digits (d ∷ ds) (p, h) = ground (arith, c_str-digits ds h, p)

signed_number-digits :
    (ds : List ℕ) → All IsDigit ds → signed_number (skip_spaces ds) ≡ pos (leading 0 ds)
unfolding signed_number skip_spaces
signed_number-digits [] h = refl
signed_number-digits (d ∷ ds) (p, h) =
    let solid : is_space d ≡ false = ground (arith, p) in
    let plain : (d == 45) ≡ false = ground (arith, p) in
    let unsigned : (d == 43) ≡ false = ground (arith, p) in rw (solid, plain, unsigned) refl

leading-append :
    (acc : ℕ) (xs : List ℕ) (d : ℕ)
    → All IsDigit xs
    → IsDigit d
    → leading acc (xs ++ (d ∷ [])) ≡ 10 * leading acc xs + (d - 48)
unfolding leading
leading-append acc [] d h p = ground (arith, p)
leading-append acc (x ∷ xs) d (q, h) p =
    ground (arith, p, q, leading-append (10 * acc + (x - 48)) xs d h p)

leading-reverse : (ds : List ℕ) → All IsDigit ds → leading 0 (reverse ds) ≡ value_of ds
unfolding leading
leading-reverse [] h = refl
leading-reverse (d ∷ ds) (p, h) =
    ap (leading 0) (reverse-cons d ds)
    ∙ leading-append 0 (reverse ds) d (All-reverse IsDigit ds h) p
    ∙ sym (value_of-digit d ds p.0 ∙ omega (arith, leading-reverse ds h))

atoi-printed :
    (n : ℕ) (text : List ℕ)
    → n < 2 ^ 31
    → convert (pos n) ≡ ok text
    → atoi (c_str text) ≡ ok (pos n)
unfolding atoi
atoi-printed n text small printed =
    let (ds, e, spelled, all, more, short) = convert-pos n (omega arith) in
    let same : text ≡ reverse ds = ok-injective (sym printed ∙ e) in
    let digits = All-reverse IsDigit ds all in
    let read : signed_number (skip_spaces (reverse ds)) ≡ pos n =
      signed_number-digits (reverse ds) digits ∙ ap pos (leading-reverse ds all ∙ spelled) in
    let fits : ltb n (2 ^ 31) ≡ true = lt→ltb n (2 ^ 31) small in
    rw (same, c_str-digits (reverse ds) digits, read, fits) refl

-- Where text and value of a port agree.
module _ (inet_pton : List ℕ → Option ℕ) (inet_ntop : ℕ → List ℕ) where
  -- For an ip without a colon and a port below 2 ^ 31, and the text that `convert` makes of the
  -- port: `TcpAddr` of the ip, a colon and that text does just what `TcpAddr` of the ip and the
  -- port does, a refusal included.
  pub of_text-printed :
      (ip text : List ℕ) (n : ℕ)
      → All (λ c. (c == 58) ≡ false) ip
      → n < 2 ^ 31
      → convert (pos n) ≡ ok text
      → of_text inet_pton inet_ntop (ip ++ (58 ∷ text)) ≡ of_ip_port inet_pton inet_ntop ip (pos n)
  unfolding of_text of_parts of_ip_port
  of_text-printed ip text n plain small printed =
      rw (split_colon-append ip text plain, atoi-printed n text small printed) refl

  -- What `avlid` says of a port that is not negative.
  pub avlid_sound :
      (ip : List ℕ) (n : ℕ)
      → avlid inet_pton inet_ntop ip (pos n) ≡ true
      → (s : ℕ) × (inet_pton (c_str ip) ≡ some s) × (0 < n) × (n ≤ 65536)
  unfolding avlid
  avlid_sound ip n valid = elim (Option-cases (inet_pton (c_str ip))) [
    | inl e ↦ absurd (ground (arith, ap is_taken e))
    | inr (s, e) ↦ (s, e, ground (arith, ap is_taken e), ground (arith, ap is_taken e))
  ]

  pub avlid_complete :
      (ip : List ℕ) (n s : ℕ)
      → inet_pton (c_str ip) ≡ some s
      → 0 < n
      → n ≤ 65536
      → avlid inet_pton inet_ntop ip (pos n) ≡ true
  unfolding avlid
  avlid_complete ip n s e more few = rw e (ground arith)

-- ===== src/AccessLog/Formatter/RoundTrip.antt =====
-- internal/logging/accesslog: the time of a line that the formatters wrote, as the rotation reads it.
use godoxy.Prelude.{
  ℕ, ◌<◌, ◌≡◌, ◌≢◌, refl, ap, ◌∙◌, arith, false, Option, some, [], ◌∷◌, ◌++◌, append_assoc, length,
  length-append, take, All, ltb, ◌==◌,
}
use godoxy.Prelude.Bytes.{Bytes, codes}
use godoxy.Prelude.Int.{ℤ}
use godoxy.AccessLog.LogTime.{
  time_length, time_text, after_first, extract_time, parse_text, parse_log_time,
}
use godoxy.AccessLog.Formatter.{
  Request, Response, Query, client_ip, common_request_log, combined_request_log,
}

-- The text has no opening bracket.
abbrev pub NoBracket : Bytes → Type 0
NoBracket s = All (λ c. c ≢ b'[') s

-- The text does not open with a brace.
abbrev pub NoBrace : Bytes → Type 0
NoBrace [] = Unit {0}
NoBrace (c ∷ s) = c ≢ b'{'

after_bracket : (p s : Bytes) → NoBracket p → after_first (b'[' ∷ []) (p ++ b'[' ∷ s) ≡ some s
unfolding after_first
after_bracket [] s h = refl
after_bracket (c ∷ p) s h = ground (arith, h.0, after_bracket p s h.1)

take_part : (now rest : Bytes) (n : ℕ) → length now ≡ n → take n (now ++ rest) ≡ now
take_part [] rest n e = rw (← e) refl
take_part (c ∷ now) rest n e = rw (← e) (ap (◌∷◌ c) (take_part now rest (length now) refl))

time_text_part :
    (now rest : Bytes) → length now ≡ time_length → time_text (some (now ++ rest)) ≡ some now
unfolding time_text
time_text_part now rest e = rw (long, take_part now rest time_length e) refl
  where
    long : ltb (length (now ++ rest)) time_length ≡ false
    long = ground (arith, length-append now rest)

-- A line whose first bracket opens its time.
extract_time_part :
    (p now rest : Bytes)
    → 0 < length p
    → NoBracket p
    → NoBrace p
    → length now ≡ time_length
    → extract_time (p ++ (b'[' ∷ (now ++ rest))) ≡ some now
unfolding extract_time
extract_time_part [] now rest h b o e = absurd (omega arith)
extract_time_part (c ∷ p) now rest h b o e =
    rw (other c o, after_bracket (c ∷ p) (now ++ rest) b) (time_text_part now rest e)
  where
    other : (c : ℕ) → c ≢ b'{' → (c == b'{') ≡ false
    other c o = ground (arith, o)

-- The two formats begin alike.
before_time : Bytes → Bytes → Bytes
before_time host ip = host ++ (b' ' ∷ (ip ++ codes " - - "))

framed :
    (host ip now rest : Bytes)
    → host ++ (b' ' ∷ (ip ++ (codes " - - [" ++ (now ++ rest))))
      ≡ before_time host ip ++ (b'[' ∷ (now ++ rest))
unfolding before_time
framed host ip now rest = simp append_assoc

framed-append :
    (host ip now rest tail : Bytes)
    → (host ++ (b' ' ∷ (ip ++ (codes " - - [" ++ (now ++ rest))))) ++ tail
      ≡ before_time host ip ++ (b'[' ∷ (now ++ (rest ++ tail)))
framed-append host ip now rest tail =
    ap (λ (x : Bytes). x ++ tail) (framed host ip now rest)
    ∙ append_assoc (before_time host ip) (b'[' ∷ (now ++ rest)) tail
    ∙ ap (λ (x : Bytes). before_time host ip ++ (b'[' ∷ x)) (append_assoc now rest tail)

before_time-NoBracket :
    (host ip : Bytes) → NoBracket host → NoBracket ip → NoBracket (before_time host ip)
unfolding before_time
before_time-NoBracket [] [] h k = omega arith
before_time-NoBracket [] (c ∷ ip) h k = (omega arith, (k.0, (before_time-NoBracket [] ip h k.1).1))
before_time-NoBracket (c ∷ host) ip h k = (h.0, before_time-NoBracket host ip h.1 k)

before_time-NoBrace :
    (host ip : Bytes)
    → NoBrace host
    → NoBrace (before_time host ip) × (0 < length (before_time host ip))
unfolding before_time
before_time-NoBrace [] ip h = (omega arith, omega arith)
before_time-NoBrace (c ∷ host) ip h = (h, omega arith)

module _ (parse : Bytes → ℕ) where
  parse_log_time_part :
      (line p now rest : Bytes)
      → line ≡ p ++ (b'[' ∷ (now ++ rest))
      → 0 < length p
      → NoBracket p
      → NoBrace p
      → length now ≡ time_length
      → parse_log_time parse line ≡ parse now
  unfolding parse_log_time parse_text
  parse_log_time_part line p now rest e h b o n = rw (e, extract_time_part p now rest h b o n) refl

  module _ (split_host_port : Bytes → Option Bytes) (format_int : ℤ → Bytes) (now : Bytes)
      (query : Query) (req : Request) (res : Response) where
    -- Where neither the host nor the client's address has an opening bracket, and the host does not
    -- open with a brace, the time that the rotation reads in a line of the common format, and in
    -- one of the combined format, is the time that was written, whatever stands in the rest.
    pub parse_log_time-common_request_log :
        length now ≡ time_length
        → NoBracket req.host
        → NoBrace req.host
        → NoBracket (client_ip split_host_port req)
        → (parse_log_time parse (common_request_log split_host_port format_int now query req res)
            ≡ parse now)
          × (parse_log_time parse
                (combined_request_log split_host_port format_int now query req res)
              ≡ parse now)
    unfolding common_request_log combined_request_log
    parse_log_time-common_request_log n hb ho ib =
        let ip : Bytes = client_ip split_host_port req in
        let (brace, full) = before_time-NoBrace req.host ip ho in
        let bracket = before_time-NoBracket req.host ip hb ib in
        (
          parse_log_time_part _ _ now _ (framed req.host ip now _) full bracket brace n,
          parse_log_time_part _ _ now _ (framed-append req.host ip now _ _) full bracket brace n,
        )

-- ===== src/Cps/Handshake.antt =====
-- src/cps/mod.rs HandshakeDetector: the text that starts a programming session, found in the bytes
-- that the UART receives.
use bf_k61_firmware_aura.Prelude.{
  ℕ, zero, suc, ◌+◌, ◌<◌, ◌≡◌, refl, sym, ap, ◌∙◌, List, [], ◌∷◌, ◌++◌, Bool, true, false, ◌&&◌,
  arith, length, length-append, length-take, All, All-take, Option, some, none, Bool-cases, inl,
  inr, ==_iff, get_or, take, drop, ◌==◌, if◌then◌else◌,
}

abbrev pub handshake : List ℕ
handshake =
    b'P' ∷ b'R' ∷ b'O' ∷ b'G' ∷ b'R' ∷ b'A' ∷ b'M' ∷ b'B' ∷ b'F' ∷ b'-' ∷ b'K' ∷ b'6' ∷ b'A' ∷ b'U'
    ∷ b'R' ∷ b'A' ∷ []

-- One byte of `poll`: the number of bytes matched, and whether the text is complete.
unfoldable pub poll_byte : ℕ → ℕ → ℕ × Bool
poll_byte matched byte =
    if byte == get_or handshake matched 0
    then (if matched + 1 == length handshake then (0, true) else (matched + 1, false))
    else (if byte == b'P' then 1 else 0, false)

-- `poll` on the bytes that are buffered: it stops at the byte that completes the text, and leaves
-- the bytes after it.
unfoldable pub poll : ℕ → List ℕ → ℕ × Bool × List ℕ
unfolding poll_byte
poll matched [] = (matched, false, [])
poll matched (byte ∷ bytes) =
    let rest = poll (poll_byte matched byte).0 bytes in
    if (poll_byte matched byte).1 then (0, true, bytes) else rest

abbrev pub concat : List (List ℕ) → List ℕ
concat [] = []
concat (chunk ∷ chunks) = chunk ++ concat chunks

-- The bytes after the first place where the handshake stands in a row, if there is one.
unfoldable starts_with : List ℕ → List ℕ → Bool
starts_with [] bytes = true
starts_with (t ∷ ts) [] = false
starts_with (t ∷ ts) (b ∷ bytes) = let rest = starts_with ts bytes in b == t && rest

unfoldable pub find : List ℕ → Option (List ℕ)
unfolding starts_with
find [] = none
find (b ∷ bytes) =
    let later = find bytes in
    if starts_with handshake (b ∷ bytes) then some (drop (length handshake) (b ∷ bytes)) else later

-- What `poll` returns, with the bytes that it leaves.
abbrev pub found : ℕ × Bool × List ℕ → Option (List ℕ)
found r = if r.1 then some (r.2) else none

starts_with_short : (ts bytes : List ℕ) → length bytes < length ts → starts_with ts bytes ≡ false
unfolding starts_with
starts_with_short [] bytes h = absurd (omega arith)
starts_with_short (t ∷ ts) [] h = refl
starts_with_short (t ∷ ts) (b ∷ bytes) h = ground (arith, starts_with_short ts bytes (omega arith))

starts_with_differs :
    (ts bytes : List ℕ) (k b : ℕ)
    → k < length ts
    → (b == get_or ts k 0) ≡ false
    → starts_with ts (take k ts ++ b ∷ bytes) ≡ false
unfolding starts_with
starts_with_differs [] bytes k b h e = absurd (omega arith)
starts_with_differs (t ∷ ts) bytes zero b h e = ground (arith, e)
starts_with_differs (t ∷ ts) bytes (suc k) b h e =
    ground (arith, starts_with_differs ts bytes k b (omega arith) e)

find_short : (bytes : List ℕ) → length bytes < 16 → find bytes ≡ none
unfolding find
find_short [] h = refl
find_short (b ∷ bytes) h =
    rw (starts_with_short handshake (b ∷ bytes) h) (find_short bytes (omega arith))

find_skip :
    (b : ℕ) (bytes : List ℕ)
    → starts_with handshake (b ∷ bytes) ≡ false
    → find (b ∷ bytes) ≡ find bytes
unfolding find
find_skip b bytes e = rw e

-- The first character of the handshake is nowhere else in it.
abbrev IsOther : ℕ → Type 0
IsOther b = (b == b'P') ≡ false

find_skip_one : (b : ℕ) (bytes : List ℕ) → IsOther b → find (b ∷ bytes) ≡ find bytes
find_skip_one b bytes e = find_skip b bytes (unfold starts_with in rw e)

find_skip_run : (xs bytes : List ℕ) → All IsOther xs → find (xs ++ bytes) ≡ find bytes
find_skip_run [] bytes h = refl
find_skip_run (x ∷ xs) bytes h = find_skip_one x (xs ++ bytes) h.0 ∙ find_skip_run xs bytes h.1

take_more :
    (ts bytes : List ℕ) (k : ℕ)
    → k < length ts
    → take k ts ++ get_or ts k 0 ∷ bytes ≡ take (suc k) ts ++ bytes
take_more [] bytes k h = absurd (omega arith)
take_more (t ∷ ts) bytes zero h = refl
take_more (t ∷ ts) bytes (suc k) h = ap (λ l. t ∷ l) (take_more ts bytes k (omega arith))

find_here : (bytes : List ℕ) → find (handshake ++ bytes) ≡ some bytes
unfolding find starts_with
find_here bytes = refl

others-IsOther : All IsOther (drop 1 handshake)
others-IsOther = (
  refl,
  (
    refl,
    (
      refl,
      (
        refl,
        (refl, (refl, (refl, (refl, (refl, (refl, (refl, (refl, (refl, (refl, (refl, tt))))))))))),
      ),
    ),
  ),
)

-- A byte that does not go on with the text.
find_mismatch :
    (k b : ℕ) (bytes : List ℕ)
    → k < 16
    → (b == get_or handshake k 0) ≡ false
    → find (take k handshake ++ b ∷ bytes)
      ≡ find (take (if b == b'P' then 1 else 0) handshake ++ bytes)
find_mismatch zero b bytes h e = rw e (find_skip_one b bytes e)
find_mismatch (suc k) b bytes h e =
    let others = take k (drop 1 handshake) in
    find_skip b'P' (others ++ b ∷ bytes) (starts_with_differs handshake bytes (suc k) b h e)
    ∙ find_skip_run others (b ∷ bytes) (All-take IsOther k (drop 1 handshake) others-IsOther)
    ∙ elim (Bool-cases (b == b'P')) [
      | inl p ↦ rw p (ap (λ (x : ℕ). find (x ∷ bytes)) ((==_iff b b'P').0 p))
      | inr o ↦ rw o (find_skip_one b bytes o)
    ]

-- The search goes on with one more byte matched.
find_match :
    (k b n : ℕ) (bytes : List ℕ)
    → k < 16
    → (b == get_or handshake k 0) ≡ true
    → n ≡ suc k
    → find (take k handshake ++ b ∷ bytes) ≡ find (take n handshake ++ bytes)
find_match k b n bytes h e more =
    ap (λ (x : ℕ). find (take k handshake ++ x ∷ bytes)) ((==_iff b (get_or handshake k 0)).0 e)
    ∙ ap find (take_more handshake bytes k h)
    ∙ ap (λ (x : ℕ). find (take x handshake ++ bytes)) (sym more)

-- The bytes matched so far are a start of the handshake, and no more of what came before matters.
found-poll :
    (k : ℕ) (bytes : List ℕ) → k < 16 → found (poll k bytes) ≡ find (take k handshake ++ bytes)
unfolding poll
found-poll k [] h = sym (
    find_short (take k handshake ++ [])
      (omega (arith, length-append (take k handshake) [], length-take k handshake)))
found-poll k (b ∷ bytes) h = elim (Bool-cases (b == get_or handshake k 0)) [
  | inl e ↦ elim (Bool-cases (k + 1 == 16)) [
    | inl last ↦ rw e (
        rw last (
          sym (
            find_match k b 16 bytes h e (omega (arith, (==_iff (k + 1) 16).0 last))
            ∙ find_here bytes)))
    | inr more ↦ rw e (
        rw more (
          found-poll (k + 1) bytes (ground (arith, h, more))
          ∙ sym (find_match k b (k + 1) bytes h e (omega arith))))
  ]
  | inr e ↦ rw e (
      found-poll (if b == b'P' then 1 else 0) bytes (ground arith)
      ∙ sym (find_mismatch k b bytes h e))
]

not_found :
    (over : Bool) (bytes : List ℕ) (rest : ℕ × Bool × List ℕ)
    → (if over then (0, true, bytes) else rest).1 ≡ false
    → (over ≡ false) × (rest.1 ≡ false)
not_found true bytes rest e = cc
not_found false bytes rest e = (refl, e)

poll-append :
    (k : ℕ) (xs ys : List ℕ) → (poll k xs).1 ≡ false → poll k (xs ++ ys) ≡ poll (poll k xs).0 ys
unfolding poll
poll-append k [] ys e = refl
poll-append k (b ∷ xs) ys e =
    let go = poll_byte k b in
    let both = not_found (go.1) xs (poll (go.0) xs) e in
    rw (both.0) (poll-append (go.0) xs ys (both.1))

still_found :
    (k b : ℕ) (xs : List ℕ)
    → (poll k (b ∷ xs)).1 ≡ true
    → (poll_byte k b).1 ≡ false
    → (poll (poll_byte k b).0 xs).1 ≡ true
unfolding poll
still_found k b xs e going = rw going at e

poll-append_found :
    (k : ℕ) (xs ys : List ℕ)
    → (poll k xs).1 ≡ true
    → found (poll k (xs ++ ys)) ≡ some ((poll k xs).2 ++ ys)
unfolding poll
poll-append_found k [] ys e = cc
poll-append_found k (b ∷ xs) ys e = elim (Bool-cases (poll_byte k b).1) [
  | inl over ↦ rw over
  | inr going ↦ rw going (poll-append_found (poll_byte k b).0 xs ys (still_found k b xs e going))
]

-- The polls of the main loop, on the bytes that are buffered at each; the bytes after the handshake
-- are what its poll leaves and what comes later.
unfoldable pub polls : ℕ → List (List ℕ) → Option (List ℕ)
unfolding poll
polls matched [] = none
polls matched (chunk ∷ chunks) =
    let r = poll matched chunk in
    let later = polls r.0 chunks in if r.1 then some (r.2 ++ concat chunks) else later

polls-poll : (k : ℕ) (chunks : List (List ℕ)) → polls k chunks ≡ found (poll k (concat chunks))
unfolding polls
polls-poll k [] = unfold poll in refl
polls-poll k (chunk ∷ chunks) = elim (Bool-cases (poll k chunk).1) [
  | inl over ↦ rw over (sym (poll-append_found k chunk (concat chunks) over))
  | inr going ↦ rw going (
      polls-poll (poll k chunk).0 chunks
      ∙ ap found (sym (poll-append k chunk (concat chunks) going)))
]

-- However the bytes received are spread over the polls, the detector finds the handshake exactly
-- where it stands in a row for the first time, and the bytes after it are left.
pub polls-find : (chunks : List (List ℕ)) → polls 0 chunks ≡ find (concat chunks)
polls-find chunks = polls-poll 0 chunks ∙ found-poll 0 (concat chunks) (omega arith)

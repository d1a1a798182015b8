-- ===== src/Cps/Session/Loop.antt =====
-- The loop of a session (src/cps/mod.rs run_session): what ends it, and its rounds as deliveries.
use mathlib.Core.List.{append-nil}
use bf_k61_firmware_aura.Prelude.{
  ℕ, ◌+◌, ◌<◌, ◌≤◌, ◌≡◌, refl, ap, ◌∙◌, List, [], ◌∷◌, ◌++◌, Bool, true, false, arith, Option, none,
  some, Bool-cases, inl, inr, take, leb, ltb, leb→le, if◌then◌else◌,
}
use bf_k61_firmware_aura.Cps.Frame.{FrameReader, FeedResult, pending, crc_error, feed, run, collect}
use bf_k61_firmware_aura.Drivers.NorFlash.{Chip}
use bf_k61_firmware_aura.Device.Storage.{Storage}
use bf_k61_firmware_aura.Cps.Session.{err_bad_crc, idle_timeout_ms, send_error}
use bf_k61_firmware_aura.Cps.Session.Dispatch.{
  Session, running, reset, dispatch, after_feed, receive, round, rounds,
}

-- Rounds in which nothing is received, from whether the timer has wrapped in each.
abbrev pub quiet : List Bool → List (Bool × Option ℕ)
quiet [] = []
quiet (wrapped ∷ ws) = (wrapped, none) ∷ quiet ws

abbrev pub wraps : List Bool → ℕ
wraps [] = 0
wraps (wrapped ∷ ws) = (if wrapped then 1 else 0) + wraps ws

-- Rounds in which a byte is received, with whether the timer has wrapped in each.
abbrev pub heard : List (Bool × ℕ) → List (Bool × Option ℕ)
heard [] = []
heard (h ∷ hs) = (h.0, some h.1) ∷ heard hs

abbrev pub bytes_heard : List (Bool × ℕ) → List ℕ
bytes_heard [] = []
bytes_heard (h ∷ hs) = h.1 ∷ bytes_heard hs

module _ (c : Chip) (memory : ℕ → ℕ) where
  rounds-reset :
      (st : Storage c) (rs : List (Bool × Option ℕ))
      → rounds c memory (reset st) rs ≡ (reset st, [])
  unfolding rounds round
  rounds-reset st [] = refl
  rounds-reset st (r ∷ rs) = ap (λ t. (t.0, t.1)) (rounds-reset st rs)

  abbrev pub silent : Storage c → FrameReader → ℕ → Session c × List ℕ
  silent st reader idle_ms =
      (if ltb idle_ms idle_timeout_ms then running st reader idle_ms else reset st, [])

  silent_next :
      (st : Storage c) (reader : FrameReader) (idle_ms idle_next : ℕ) (now : Session c × List ℕ)
      (ws : List Bool)
      → now ≡ (running st reader idle_ms, [])
      → idle_next ≡ idle_ms + wraps ws
      → rounds c memory (running st reader idle_ms) (quiet ws)
        ≡ silent st reader (idle_ms + wraps ws)
      → ((rounds c memory now.0 (quiet ws)).0, now.1 ++ (rounds c memory now.0 (quiet ws)).1)
        ≡ silent st reader idle_next
  silent_next st reader idle_ms idle_next now ws e k ih = rw e (rw k (ap (λ t. (t.0, t.1)) ih))

  silent_full :
      (st : Storage c) (reader : FrameReader) (idle_next : ℕ) (now : Session c × List ℕ)
      (ws : List Bool)
      → now ≡ (reset st, [])
      → idle_timeout_ms ≤ idle_next
      → ((rounds c memory now.0 (quiet ws)).0, now.1 ++ (rounds c memory now.0 (quiet ws)).1)
        ≡ silent st reader idle_next
  silent_full st reader idle_next now ws e k =
      let late : ltb idle_next idle_timeout_ms ≡ false = ground (arith, k) in
      rw e (rw late (ap (λ t. (t.0, t.1)) (rounds-reset st (quiet ws))))

  -- Without a byte, the session stays open, sends nothing and counts the milliseconds up to 1999; at
  -- 2000 the radio resets, with what is stored as it was.
  pub rounds-quiet :
      (st : Storage c) (reader : FrameReader) (idle_ms : ℕ) (ws : List Bool)
      → idle_ms < idle_timeout_ms
      → rounds c memory (running st reader idle_ms) (quiet ws) ≡ (
        if ltb (idle_ms + wraps ws) idle_timeout_ms
            then running st reader (idle_ms + wraps ws)
            else reset st,
        [],
      )
  unfolding rounds
  rounds-quiet st reader idle_ms [] h = ground (arith, h)
  rounds-quiet st reader idle_ms (false ∷ ws) h =
      silent_next st reader idle_ms (idle_ms + (0 + wraps ws))
        (round c memory (running st reader idle_ms) false none) ws
        (unfold round in unfold receive in refl) (omega arith) (rounds-quiet st reader idle_ms ws h)
  rounds-quiet st reader idle_ms (true ∷ ws) h =
      elim (Bool-cases (leb idle_timeout_ms (idle_ms + 1))) [
        | inl full ↦
            silent_full st reader (idle_ms + (1 + wraps ws))
              (round c memory (running st reader idle_ms) true none) ws (unfold round in rw full)
              (omega (arith, leb→le idle_timeout_ms (idle_ms + 1) full))
        | inr early ↦
            silent_next st reader (idle_ms + 1) (idle_ms + (1 + wraps ws))
              (round c memory (running st reader idle_ms) true none) ws
              (unfold round in unfold receive in rw early) (omega arith)
              (rounds-quiet st reader (idle_ms + 1) ws (ground (arith, early)))
      ]

  -- What a receiver of all the results makes of them.
  unfoldable pub deliver : Storage c → List FeedResult → Storage c × List ℕ × Bool
  deliver st [] = (st, [], false)
  deliver st (pending ∷ rs) = deliver st rs
  deliver st (crc_error addr ∷ rs) =
      let d = deliver st rs in (d.0, send_error addr err_bad_crc ++ d.1, d.2)
  deliver st (FeedResult.frame f ∷ rs) =
      let r = dispatch c memory st f.cmd f.addr (take f.len f.payload) in
      let d = deliver r.0 rs in if r.2 then (r.0, r.1, true) else (d.0, r.1 ++ d.1, d.2)

  -- What is stored, what was sent, and whether the session has ended.
  unfoldable pub seen : Session c × List ℕ → Storage c × List ℕ × Bool
  seen (running st reader idle_ms, sent) = (st, sent, false)
  seen (reset st, sent) = (st, sent, true)

  round-heard :
      (st : Storage c) (reader : FrameReader) (idle_ms byte : ℕ) (wrapped : Bool)
      → idle_ms + 1 < idle_timeout_ms
      → round c memory (running st reader idle_ms) wrapped (some byte)
        ≡ after_feed c memory st (feed reader byte).0 (feed reader byte).1
  unfolding round receive
  round-heard st reader idle_ms byte false h = refl
  round-heard st reader idle_ms byte true h =
      let early : leb idle_timeout_ms (idle_ms + 1) ≡ false = ground (arith, h) in rw early

  seen-append :
      (sent : List ℕ) (r : Session c × List ℕ)
      → seen (r.0, sent ++ r.1) ≡ ((seen r).0, sent ++ (seen r).1, (seen r).2)
  unfolding seen
  seen-append sent (running st reader idle_ms, more) = refl
  seen-append sent (reset st, more) = refl

  after_result :
      (st : Storage c) (reader : FrameReader) (result : FeedResult) (hs : List (Bool × Option ℕ))
      (outs : List FeedResult)
      → ((stored : Storage c)
          → seen (rounds c memory (running stored reader 0) hs) ≡ deliver stored outs)
      → seen (
        (rounds c memory (after_feed c memory st reader result).0 hs).0,
        (after_feed c memory st reader result).1
            ++ (rounds c memory (after_feed c memory st reader result).0 hs).1,
      )
        ≡ deliver st (collect result outs)
  unfolding after_feed deliver
  after_result st reader pending hs outs ih = ih st
  after_result st reader (crc_error addr) hs outs ih =
      seen-append (send_error addr err_bad_crc) (rounds c memory (running st reader 0) hs)
      ∙ ap (λ d. (d.0, send_error addr err_bad_crc ++ d.1, d.2)) (ih st)
  after_result st reader (FeedResult.frame f) hs outs ih =
      let r = dispatch c memory st f.cmd f.addr (take f.len f.payload) in
      elim (Bool-cases (r.2)) [
        | inl over ↦ rw over (
            seen-append (r.1) (rounds c memory (reset (r.0)) hs)
            ∙ ap (λ d. ((seen d).0, r.1 ++ (seen d).1, (seen d).2)) (rounds-reset (r.0) hs)
            ∙ unfold seen in ap (λ t. (r.0, t, true)) (append-nil (r.1)))
        | inr more ↦ rw more (
            seen-append (r.1) (rounds c memory (running (r.0) reader 0) hs)
            ∙ ap (λ d. (d.0, r.1 ++ d.1, d.2)) (ih (r.0)))
      ]

  pub rounds-deliver :
      (st : Storage c) (reader : FrameReader) (idle_ms : ℕ) (hs : List (Bool × ℕ))
      → idle_ms + 1 < idle_timeout_ms
      → seen (rounds c memory (running st reader idle_ms) (heard hs))
        ≡ deliver st (run reader (bytes_heard hs)).1
  unfolding rounds run
  rounds-deliver st reader idle_ms [] h = unfold seen in unfold deliver in refl
  rounds-deliver st reader idle_ms (x ∷ hs) h =
      (λ i.
        let now = round-heard st reader idle_ms (x.1) (x.0) h i in
        seen ((rounds c memory now.0 (heard hs)).0, now.1 ++ (rounds c memory now.0 (heard hs)).1))
      ∙ after_result st (feed reader (x.1)).0 (feed reader (x.1)).1 (heard hs)
          (run (feed reader (x.1)).0 (bytes_heard hs)).1
          (λ stored. rounds-deliver stored (feed reader (x.1)).0 0 hs (omega arith))

-- ===== src/Cps/Session/Stream.antt =====
-- A session as its host sees it: requests go in, and the radio serves them one after the other.
use bf_k61_firmware_aura.Prelude.{
  ℕ, ◌+◌, ◌<◌, ◌≡◌, refl, ap, ◌∙◌, List, [], ◌∷◌, ◌++◌, Bool, true, false, All, length, take,
  if◌then◌else◌,
}
use bf_k61_firmware_aura.Cps.Frame.{
  Frame, State, FrameReader, FeedResult, pending, crc_error, run, max_data,
}
use bf_k61_firmware_aura.Cps.Frame.RoundTrip.{
  Message, Item, IsItem, stream, messages, views, sent, run-stream,
}
use bf_k61_firmware_aura.Drivers.NorFlash.{Chip}
use bf_k61_firmware_aura.Device.Storage.{Storage}
use bf_k61_firmware_aura.Cps.Session.{idle_timeout_ms}
use bf_k61_firmware_aura.Cps.Session.Dispatch.{running, dispatch, rounds}
use bf_k61_firmware_aura.Cps.Session.Loop.{deliver, seen, heard, bytes_heard, rounds-deliver}

abbrev message_of : Frame → Message
message_of f = record { command = f.cmd; address = f.addr; bytes = take f.len f.payload }

module _ (c : Chip) (memory : ℕ → ℕ) where
  -- The requests served in order, up to the one that ends the session: what is stored, what is
  -- sent, and whether there was such a request.
  unfoldable pub serve : Storage c → List Message → Storage c × List ℕ × Bool
  serve st [] = (st, [], false)
  serve st (m ∷ ms) =
      let r = dispatch c memory st m.command m.address m.bytes in
      let later = serve r.0 ms in
      if r.2 then (r.0, r.1, true) else (later.0, r.1 ++ later.1, later.2)

  deliver-serve :
      (st : Storage c) (rs : List FeedResult) (ms : List Message)
      → views rs ≡ sent ms
      → deliver c memory st rs ≡ serve st ms
  unfolding deliver serve
  deliver-serve st [] [] e = refl
  deliver-serve st [] (m ∷ ms) e = cc
  deliver-serve st (pending ∷ rs) [] e = cc
  deliver-serve st (pending ∷ rs) (m ∷ ms) e = cc
  deliver-serve st (crc_error addr ∷ rs) [] e = cc
  deliver-serve st (crc_error addr ∷ rs) (m ∷ ms) e = cc
  deliver-serve st (FeedResult.frame f ∷ rs) [] e = cc
  deliver-serve st (FeedResult.frame f ∷ rs) (m ∷ ms) e =
      let same : message_of f ≡ m = cc in
      let others : views rs ≡ sent ms = cc in
      let r = dispatch c memory st m.command m.address m.bytes in
      (λ i.
        let q = dispatch c memory st (same i).command (same i).address (same i).bytes in
        let d = deliver c memory q.0 rs in if q.2 then (q.0, q.1, true) else (d.0, q.1 ++ d.1, d.2))
      ∙ ap (λ d. if r.2 then (r.0, r.1, true) else (d.0, r.1 ++ d.1, d.2))
          (deliver-serve r.0 rs ms others)

  -- A session that waits for a header byte, fed byte by byte with encoded requests of at most 96
  -- data bytes each, and with other bytes in between that are no header, stores, sends and ends as
  -- a server does that takes the requests one by one, whenever the millisecond timer wraps.
  pub rounds-serve :
      (st : Storage c) (reader : FrameReader) (idle_ms : ℕ) (hs : List (Bool × ℕ))
      (items : List Item)
      → idle_ms + 1 < idle_timeout_ms
      → reader.state ≡ State.header
      → length reader.payload ≡ max_data
      → All IsItem items
      → bytes_heard hs ≡ stream items
      → seen c memory (rounds c memory (running st reader idle_ms) (heard hs))
        ≡ serve st (messages items)
  rounds-serve st reader idle_ms hs items h waits room valid e =
      rounds-deliver c memory st reader idle_ms hs h
      ∙ ap (λ (bs : List ℕ). deliver c memory st (run reader bs).1) e
      ∙ deliver-serve st (run reader (stream items)).1 (messages items)
          (run-stream reader items waits room valid).1

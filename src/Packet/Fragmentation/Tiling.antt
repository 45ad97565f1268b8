-- ===== src/Packet/Fragmentation/Tiling.antt =====
-- The fragments of a message carry its consecutive parts (bzrtp_packetBuild, src/packetParser.c).
use bzrtp.Common.{
  ℕ, zero, suc, ◌+◌, ◌-◌, ◌%◌, ◌≤◌, ◌<◌, Bytes, length, length-take, length-drop, take, drop,
  take-append-drop, List, [], ◌∷◌, ◌++◌, some, ltb-true, ltb-false, ◌≡◌, arith, sym, subst, ◌∙◌,
}
use bzrtp.Packet.Types.{Fragment}
use bzrtp.Packet.Builder.Fragments.{fragment_size, make_fragment, fragment_loop, fragments_of}

module _ (junk mtu ssrc message_id total : ℕ) where
  -- From an offset on, the fragments carry the bytes that are left: chunk after chunk, none of them empty
  -- or longer than the MTU allows, each under the offset where it starts.
  pub data IsTiling : ℕ → Bytes → List Fragment → Type 0 where
    no_more : (offset : ℕ) → IsTiling offset [] []
    one_more :
        (offset : ℕ) (chunk rest : Bytes) (fs : List Fragment)
        → 0 < length chunk
        → length chunk ≤ mtu - 24
        → IsTiling (offset + length chunk) rest fs
        → IsTiling offset
            (chunk ++ rest)
            (make_fragment junk ssrc message_id total offset chunk ∷ fs)

  fragment_size_bounds :
      (left : ℕ)
      → 600 ≤ mtu
      → mtu < 65536
      → 0 < left
      → (0 < fragment_size mtu left)
        × (fragment_size mtu left ≤ left)
        × (fragment_size mtu left ≤ mtu - 24)
  unfolding fragment_size
  fragment_size_bounds left lo hi pos = ground arith

  IsTiling-step :
      (offset size : ℕ) (rest : Bytes) (fs : List Fragment)
      → length (take size rest) ≡ size
      → 0 < size
      → size ≤ mtu - 24
      → IsTiling (offset + size) (drop size rest) fs
      → IsTiling offset rest (make_fragment junk ssrc message_id total offset (take size rest) ∷ fs)
  IsTiling-step offset size rest fs e pos most tiles =
      subst
        (λ r.
          IsTiling offset r (make_fragment junk ssrc message_id total offset (take size rest) ∷ fs))
        (take-append-drop size rest)
        (one_more offset (take size rest) (drop size rest) fs (omega arith) (omega arith)
          (subst (λ k. IsTiling (offset + k) (drop size rest) fs) (sym e) tiles))

  loop_step :
      (fuel offset next : ℕ) (rest : Bytes) (fs : List Fragment)
      → offset < total
      → let size = fragment_size mtu (total - offset) in
        (offset + size) % 65536 ≡ next
        → fragment_loop fuel junk mtu ssrc message_id total next (drop size rest) ≡ some fs
        → fragment_loop (suc fuel) junk mtu ssrc message_id total offset rest
          ≡ some (make_fragment junk ssrc message_id total offset (take size rest) ∷ fs)
  unfolding fragment_loop
  loop_step fuel offset next rest fs lt en made = rw (en, ltb-true offset total lt, made)

  fragment_loop-IsTiling :
      (fuel offset : ℕ) (rest : Bytes)
      → 600 ≤ mtu
      → mtu < 65536
      → total < 65536
      → offset + length rest ≡ total
      → length rest ≤ fuel
      → (fs : List Fragment) × (fragment_loop fuel junk mtu ssrc message_id total offset rest
          ≡ some fs)
        × IsTiling offset rest fs
  unfolding fragment_loop
  fragment_loop-IsTiling zero offset [] lo hi s e f =
      ([], rw (ltb-false offset total (omega (arith, e))), no_more offset)
  fragment_loop-IsTiling zero offset (x ∷ rest) lo hi s e f = absurd (omega arith)
  fragment_loop-IsTiling (suc fuel) offset [] lo hi s e f =
      ([], rw (ltb-false offset total (omega (arith, e))), no_more offset)
  fragment_loop-IsTiling (suc fuel) offset (x ∷ xs) lo hi s e f =
      let rest = x ∷ xs in
      let size = fragment_size mtu (total - offset) in
      let (pos, within, most) = fragment_size_bounds (total - offset) lo hi (omega (arith, e)) in
      let chunk : length (take size rest) ≡ size =
        length-take size rest ∙ omega (arith, e, within) in
      let (fs, made, tiles) =
        fragment_loop-IsTiling fuel (offset + size) (drop size rest) lo hi s
          (omega (arith, e, within, length-drop size rest))
          (omega (arith, e, within, pos, f, length-drop size rest)) in
      (
        make_fragment junk ssrc message_id total offset (take size rest) ∷ fs,
        loop_step fuel offset (offset + size) rest fs (omega (arith, e)) (omega (arith, e, within))
            made,
        IsTiling-step offset size rest fs chunk pos most tiles,
      )

  -- The loop ends, with fragments that tile the message.
  unfoldable pub FragmentsTile : Bytes → Type 0
  FragmentsTile message =
      (fs : List Fragment) × (fragments_of junk mtu ssrc message_id total message ≡ some fs)
      × IsTiling 0 message fs

  -- Fragmentation ends, and its fragments tile the message, for an MTU that bzrtp_set_MTU can give
  -- and that is less than 65536.
  pub fragments_of-IsTiling :
      (message : Bytes)
      → 600 ≤ mtu
      → mtu < 65536
      → length message ≡ total
      → total < 65536
      → FragmentsTile message
  unfolding fragments_of FragmentsTile
  fragments_of-IsTiling message lo hi e s =
      fragment_loop-IsTiling total 0 message lo hi s (omega (arith, e)) (omega (arith, e))

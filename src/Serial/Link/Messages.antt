-- ===== src/Serial/Link/Messages.antt =====
-- Messages survive fragmentation and reassembly.
use srltcpv.Base.{
  ℕ, ◌+◌, ◌-◌, ◌≤◌, ◌<◌, ◌≡◌, refl, sym, ap, ◌∙◌, Bool, true, false, List, [], ◌∷◌, ◌++◌,
  append_assoc, append-nil, Bytes, All, length, length-append, flatten, map, le→ltb_false, ==_false,
  ==_refl, arith,
}
use srltcpv.Serial.Transport.{
  chunks, flag_chunks, fragment, fragment_data, frag_more, frag_last, max_message_bytes,
}
use srltcpv.Serial.Transport.Fragments.{flatten-chunks}
use srltcpv.Serial.Link.{reassemble}

-- What `reassemble` returns when it finds a whole message first.
abbrev emit : Bytes → List Bytes × Bytes × Bool → List Bytes × Bytes × Bool
emit msg out = (msg ∷ out.0, out.1, out.2)

reassemble-last :
    (acc bytes : Bytes) (ps : List Bytes)
    → length acc + length bytes ≤ max_message_bytes
    → reassemble true ((frag_last ∷ bytes) ∷ ps) acc ≡ emit (acc ++ bytes) (reassemble true ps [])
unfolding reassemble
reassemble-last acc bytes ps h = rw (le→ltb_false max_message_bytes (length acc + length bytes) h)

reassemble-more :
    (acc bytes : Bytes) (ps : List Bytes)
    → length acc + length bytes ≤ max_message_bytes
    → reassemble true ((frag_more ∷ bytes) ∷ ps) acc ≡ reassemble true ps (acc ++ bytes)
unfolding reassemble
reassemble-more acc bytes ps h = rw (le→ltb_false max_message_bytes (length acc + length bytes) h)

reassemble-flag_chunks :
    (last i : ℕ) (acc c : Bytes) (cs ps : List Bytes)
    → i + length cs ≡ last
    → length acc + length (flatten (c ∷ cs)) ≤ max_message_bytes
    → reassemble true (flag_chunks last i (c ∷ cs) ++ ps) acc
      ≡ emit (acc ++ flatten (c ∷ cs)) (reassemble true ps [])
unfolding flag_chunks
reassemble-flag_chunks last i acc c [] ps e h =
    let q : i ≡ last = omega arith in
    rw (q, ==_refl last)
      (reassemble-last acc c ps (omega (arith, length-append {0} c []))
        ∙ ap (λ m. emit (acc ++ m) (reassemble true ps [])) (sym (append-nil c)))
reassemble-flag_chunks last i acc c (d ∷ cs) ps e h = rw (==_false i last (omega arith)) (
    reassemble-more acc c _ (omega (arith, length-append {0} c (flatten (d ∷ cs))))
    ∙ reassemble-flag_chunks last (i + 1) (acc ++ c) d cs ps (omega arith)
        (omega (arith, length-append {0} acc c, length-append {0} c (flatten (d ∷ cs))))
    ∙ ap (λ m. emit m (reassemble true ps [])) (append_assoc acc c (flatten (d ∷ cs))))

reassemble-nonempty :
    (msg : Bytes) (cs ps : List Bytes)
    → 0 < length msg
    → flatten cs ≡ msg
    → length msg ≤ max_message_bytes
    → reassemble true (flag_chunks (length cs - 1) 0 cs ++ ps) [] ≡ emit msg (reassemble true ps [])
reassemble-nonempty msg [] ps p e h = absurd (omega (arith, ap length e))
reassemble-nonempty msg (c ∷ cs) ps p e h =
    reassemble-flag_chunks (length (c ∷ cs) - 1) 0 [] c cs ps (omega arith)
      (omega (arith, ap length e))
    ∙ ap (λ m. emit m (reassemble true ps [])) e

-- The fragments of a message within the limit, with any fragments after them, are put together to
-- that message and nothing else, and the rest is handled as if it came first.
pub reassemble-fragment :
    (msg : Bytes) (ps : List Bytes)
    → length msg ≤ max_message_bytes
    → reassemble true (fragment msg ++ ps) []
      ≡ (msg ∷ (reassemble true ps []).0, (reassemble true ps []).1, (reassemble true ps []).2)
unfolding fragment
reassemble-fragment [] ps h = reassemble-last [] [] ps (omega arith)
reassemble-fragment (b ∷ bs) ps h =
    reassemble-nonempty (b ∷ bs) (chunks (length (b ∷ bs)) fragment_data (b ∷ bs)) ps (omega arith)
      (flatten-chunks fragment_data (omega arith) (length (b ∷ bs)) (b ∷ bs) (omega arith)) h

-- So a sequence of messages, each within the limit, is received as it was sent, and nothing is
-- left over.
pub reassemble-messages :
    (msgs : List Bytes)
    → All (λ m. length m ≤ max_message_bytes) msgs
    → reassemble true (flatten (map fragment msgs)) [] ≡ (msgs, [], false)
reassemble-messages [] h = unfold reassemble in refl
reassemble-messages (m ∷ msgs) h =
    reassemble-fragment m (flatten (map fragment msgs)) h.0
    ∙ ap (emit m) (reassemble-messages msgs h.1)

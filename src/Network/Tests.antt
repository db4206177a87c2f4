-- ===== src/Network/Tests.antt =====
-- core/src/network/iroh_transport.rs: the theorems at concrete inputs.
use srltcpv.Base.{◌≡◌, refl, true, false, [], ◌∷◌, some, arith, not, err}
use srltcpv.Base.Assoc.{get, insert, remove}
use srltcpv.Base.NumSet.{contains}
use srltcpv.Crypto.Sas.{lex_lt}
use srltcpv.Network.{
  Connection, IrohTransport, new_transport, bind, register, register_over, move_entry, unregister,
  rekey, has_connection, connection_id, send, peer_not_found,
}
use srltcpv.Network.Accounted.{Accounted}
use srltcpv.Network.Glare.{Dialing, KeepsDialed, after_both, glare-converges}
use srltcpv.Network.Leaks.{started, binds, registers, rekeys, Run-Accounted}

abbrev one : Connection
one = record { stable_id = 1; remote_id = 9 ∷ [] }

abbrev two : Connection
two = record { stable_id = 2; remote_id = 9 ∷ [] }

abbrev three : Connection
three = record { stable_id = 3; remote_id = 4 ∷ [] }

abbrev four : Connection
four = record { stable_id = 4; remote_id = 4 ∷ [] }

small-Dialing : Dialing (4 ∷ []) (9 ∷ []) 7 one two (bind (4 ∷ []) new_transport)
unfolding get contains
small-Dialing = record {
  bound = refl;
  absent = refl;
  first_remote = refl;
  second_remote = refl;
  distinct = ground arith;
  first_live = refl;
  others = ground arith;
}

large-Dialing : Dialing (9 ∷ []) (4 ∷ []) 8 three four (bind (9 ∷ []) new_transport)
unfolding get contains
large-Dialing = record {
  bound = refl;
  absent = refl;
  first_remote = refl;
  second_remote = refl;
  distinct = ground arith;
  first_live = refl;
  others = ground arith;
}

glare-converges_example :
    KeepsDialed 7
      (lex_lt (4 ∷ []) (9 ∷ []))
      (after_both (4 ∷ []) (9 ∷ []) 7 one two (bind (4 ∷ []) new_transport) true)
    × KeepsDialed 8
        (not (lex_lt (4 ∷ []) (9 ∷ [])))
        (after_both (9 ∷ []) (4 ∷ []) 8 three four (bind (9 ∷ []) new_transport) true)
glare-converges_example =
    glare-converges (4 ∷ []) (9 ∷ []) 7 8 one two three four (bind (4 ∷ []) new_transport)
      (bind (9 ∷ []) new_transport) true true small-Dialing large-Dialing

-- Two connections to one peer, of which the first gives way.
abbrev twice : IrohTransport
twice = (register 7 two false (register 7 one true (bind (9 ∷ []) new_transport)).1).1

Run-Accounted_example : Accounted 1 (rekey 7 8 twice)
unfolding contains
Run-Accounted_example =
    Run-Accounted (2 ∷ 1 ∷ []) (rekey 7 8 twice)
      (rekeys 7 8 (registers 7 two false (registers 7 one true (binds (9 ∷ []) started)))) 1 refl

-- What a peer that dialed sees: its connection is live until it unregisters or shuts down.
lives : has_connection 7 (register 7 one true (bind (9 ∷ []) new_transport)).1 ≡ true
unfolding register get insert contains
lives = refl

gone : has_connection 7 (unregister 7 (register 7 one true (bind (9 ∷ []) new_transport)).1) ≡ false
unfolding register unregister get insert remove
gone = refl

moved : connection_id 8 (rekey 7 8 twice) ≡ some 2
unfolding register register_over rekey get insert remove contains lex_lt move_entry
moved = refl

refused : send true true 7 [] new_transport ≡ err peer_not_found
unfolding send get
refused = refl

-- ===== src/Engine/Contacts/Saved.antt =====
-- core/src/p2p/engine.rs: what a system message of a peer can change of the contacts.
use srltcpv.Base.{
  ℕ, ◌≤◌, ◌≡◌, ◌≢◌, ◌⊎◌, refl, sym, subst, ◌∙◌, inl, inr, some, List, length, length-take, take,
  ◌==◌, ==_iff, ==_refl, ==_false, Bool-cases, Result, ok, err, arith,
}
use mathlib.Core.Option.{some_inj}
use srltcpv.Base.Assoc.{get, insert, get-insert}
use srltcpv.Crypto.Identity.{TextFormats, IdentityError, ParsedQr, parse_qr_payload}
use srltcpv.Engine.Peers.{PeerNames, peer_id_from_pubkey}
use srltcpv.Engine.Contacts.{
  Contacts, SystemAction, profile, qr_refresh, unknown_action, trim, is_empty, on_profile,
  refreshed, on_qr_refresh, handle_system_message,
}

-- An entry that a map has after a step was there before, or is as `P` says.
abbrev pub Entered : {V : Type 0} → (V → Type 0) → ℕ → (old new : List (ℕ × V)) → Type 0
Entered {V = V} P peer old new = (v : V) → get peer new ≡ some v → (get peer old ≡ some v) ⊎ P v

-- Only entries of this peer change; a new QR code names the identity of the peer, and a new name has
-- at most 64 characters.
pub record OwnOnly (n : PeerNames) (f : TextFormats) (peer : ℕ) (t t' : Contacts) : Type 0 where
  pub others :
      (k : ℕ)
      → k ≢ peer
      → (get k t'.saved_peer_qr ≡ get k t.saved_peer_qr)
        × (get k t'.remote_display_names ≡ get k t.remote_display_names)
  pub qr :
      Entered
        (λ text.
          (parsed : ParsedQr) × (parse_qr_payload f text ≡ ok parsed)
          × (peer_id_from_pubkey n parsed.public_key ≡ peer))
        peer
        t.saved_peer_qr
        t'.saved_peer_qr
  pub name : Entered (λ name. length name ≤ 64) peer t.remote_display_names t'.remote_display_names
  pub trusted : t'.trusted_pubkeys ≡ t.trusted_pubkeys

module _ {V : Type 0} (P : V → Type 0) (peer : ℕ) (v : V) (m : List (ℕ × V)) where
  insert-Entered : P v → Entered P peer m (insert peer v m)
  insert-Entered h w e =
      inr (subst P (some_inj.0 (sym (rw (get-insert peer peer v m, ==_refl peer) refl) ∙ e)) h)

  insert-other : (k : ℕ) → k ≢ peer → get k (insert peer v m) ≡ get k m
  insert-other k x = rw (get-insert peer k v m, ==_false peer k (λ e. x (sym e))) refl

module _ (n : PeerNames) (f : TextFormats) (peer : ℕ) (t : Contacts) where
  same-OwnOnly : OwnOnly n f peer t t
  same-OwnOnly = record {
    others = λ k x. (refl, refl);
    qr = λ v e. inl e;
    name = λ v e. inl e;
    trusted = refl;
  }

  on_profile-OwnOnly : (content : List ℕ) → OwnOnly n f peer t (on_profile peer content t).1
  unfolding on_profile
  on_profile-OwnOnly content = elim (Bool-cases (is_empty (take 64 (trim content)))) [
    | inl q ↦ rw q same-OwnOnly
    | inr q ↦ rw q (record {
      others = λ k x. (
        refl,
        insert-other (λ v. Unit {0}) peer (take 64 (trim content)) t.remote_display_names k x,
      );
      qr = λ v e. inl e;
      name =
          insert-Entered (λ name. length name ≤ 64) peer (take 64 (trim content))
            t.remote_display_names (omega (arith, length-take 64 (trim content)));
      trusted = refl;
    })
  ]

  refreshed-OwnOnly :
      (text : List ℕ) (r : Result IdentityError ParsedQr)
      → parse_qr_payload f text ≡ r
      → OwnOnly n f peer t (refreshed n f peer text r t).1
  refreshed-OwnOnly text (err e) h = same-OwnOnly
  refreshed-OwnOnly text (ok parsed) h =
      elim (Bool-cases (peer_id_from_pubkey n parsed.public_key == peer)) [
        | inr q ↦ rw q same-OwnOnly
        | inl q ↦ rw q (record {
          others = λ k x. (insert-other (λ v. Unit {0}) peer text t.saved_peer_qr k x, refl);
          qr =
              insert-Entered _ peer text t.saved_peer_qr
                (parsed, h, (==_iff (peer_id_from_pubkey n parsed.public_key) peer).0 q);
          name = λ v e. inl e;
          trusted = refl;
        })
      ]

  -- A system message of a peer changes no entry of another peer and no verified identity; a QR code
  -- that it newly saves parses, and names the identity of this very peer, and a name that it newly
  -- sets has at most 64 characters.
  pub handle_system_message-OwnOnly :
      (action : SystemAction) (content : List ℕ)
      → OwnOnly n f peer t (handle_system_message n f peer action content t).1
  unfolding handle_system_message on_qr_refresh
  handle_system_message-OwnOnly profile content = on_profile-OwnOnly content
  handle_system_message-OwnOnly qr_refresh content =
      refreshed-OwnOnly (trim content) (parse_qr_payload f (trim content)) refl
  handle_system_message-OwnOnly unknown_action content = same-OwnOnly

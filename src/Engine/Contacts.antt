-- ===== src/Engine/Contacts.antt =====
-- core/src/p2p/engine.rs: what the engine keeps about contacts: the saved QR codes, the display names
-- and the identities that the user has verified. A peer id is a number that stands for a string.
pub mod Saved
use srltcpv.Base.{
  ℕ, Bool, true, false, not, Option, none, some, List, [], ◌∷◌, ◌++◌, Bytes, take, ◌==◌,
  if◌then◌else◌, Result, ok, err,
}
use srltcpv.Base.Assoc.{insert}
use srltcpv.Transfer.{same_bytes}
use srltcpv.Transfer.Filename.{is_whitespace, trim_both}
use srltcpv.Crypto.Identity.{TextFormats, IdentityError, ParsedQr, parse_qr_payload}
use srltcpv.Engine.Peers.{PeerNames, peer_prefix, strip_prefix, peer_id_from_pubkey}

pub record Contacts : Type 0 where
  pub remote_display_names : List (ℕ × List ℕ)
  pub saved_peer_qr : List (ℕ × List ℕ)
  pub trusted_pubkeys : List (List ℕ)

pub data ContactAction : Type 0 where
  peer_profile : (peer : ℕ) → List ℕ → ContactAction
  peer_qr_refresh : (peer : ℕ) → List ℕ → ContactAction

-- The actions of a system message that are looked at.
pub data SystemAction : Type 0 where
  profile qr_refresh unknown_action : SystemAction

abbrev pub trim : List ℕ → List ℕ
trim text = trim_both is_whitespace text

abbrev pub is_empty : List ℕ → Bool
is_empty [] = true
is_empty (c ∷ cs) = false

unfoldable pub on_profile : ℕ → List ℕ → Contacts → List ContactAction × Contacts
on_profile peer content t =
    let name = take 64 (trim content) in
    if is_empty name then ([], t) else (
      peer_profile peer name ∷ [],
      record t { remote_display_names = insert peer name t.remote_display_names },
    )

-- A set of strings.
unfoldable pub has_text : List ℕ → List (List ℕ) → Bool
has_text s [] = false
has_text s (x ∷ xs) = let rest = has_text s xs in if same_bytes x s then true else rest

unfoldable pub add_text : List ℕ → List (List ℕ) → List (List ℕ)
add_text s xs = if has_text s xs then xs else xs ++ (s ∷ [])

module _ (n : PeerNames) where
  unfoldable pub load_all : List (List ℕ) → List (List ℕ) → List (List ℕ)
  load_all [] set = set
  load_all (pk ∷ pks) set =
      let trimmed = n.to_lowercase (trim pk) in
      load_all pks (if is_empty trimmed then set else add_text trimmed set)

  unfoldable pub load_trusted_pubkeys : List (List ℕ) → Contacts → Contacts
  load_trusted_pubkeys pubkeys t = record t { trusted_pubkeys = load_all pubkeys [] }

  abbrev pub nonempty : List ℕ → Option (List ℕ)
  nonempty hex = if is_empty hex then none else some hex

  unfoldable pub pubkey_hex_from_peer_id : ℕ → Option (List ℕ)
  pubkey_hex_from_peer_id peer = elim (strip_prefix peer_prefix (n.text_of peer)) [
    | none ↦ none
    | some h ↦ nonempty (n.to_lowercase h)
  ]

  unfoldable pub can_queue_for_peer : ℕ → Contacts → Bool
  can_queue_for_peer peer t = elim (pubkey_hex_from_peer_id peer) [
    | none ↦ false
    | some hex ↦ has_text hex t.trusted_pubkeys
  ]

  -- Whether the id starts with "peer:".
  abbrev pub is_canonical : ℕ → Bool
  is_canonical peer = elim (strip_prefix peer_prefix (n.text_of peer)) [
    | none ↦ false
    | some h ↦ true
  ]

  abbrev pub saved_key : ℕ → Option ℕ → Option ℕ
  saved_key peer none = if is_canonical peer then some peer else none
  saved_key peer (some canonical) =
      if is_canonical canonical
      then some canonical
      else if is_canonical peer
      then some peer
      else none

  -- `resolved` is the session to which the id resolves.
  unfoldable pub register_saved_peer : Option ℕ → ℕ → List ℕ → Contacts → Contacts
  register_saved_peer resolved peer qr t = elim (saved_key peer resolved) [
    | none ↦ t
    | some key ↦ record t { saved_peer_qr = insert key (trim qr) t.saved_peer_qr }
  ]

  module _ (f : TextFormats) where
    abbrev pub refreshed :
        ℕ → List ℕ → Result IdentityError ParsedQr → Contacts → List ContactAction × Contacts
    refreshed peer qr (err e) t = ([], t)
    refreshed peer qr (ok parsed) t =
        if peer_id_from_pubkey n parsed.public_key == peer
        then (
          peer_qr_refresh peer qr ∷ [],
          record t { saved_peer_qr = insert peer qr t.saved_peer_qr },
        )
        else ([], t)

    unfoldable pub on_qr_refresh : ℕ → List ℕ → Contacts → List ContactAction × Contacts
    on_qr_refresh peer content t =
        refreshed peer (trim content) (parse_qr_payload f (trim content)) t

    -- The messages of type `System` in `handle_app_message`.
    unfoldable pub handle_system_message :
        ℕ → SystemAction → List ℕ → Contacts → List ContactAction × Contacts
    handle_system_message peer profile content t = on_profile peer content t
    handle_system_message peer qr_refresh content t = on_qr_refresh peer content t
    handle_system_message peer unknown_action content t = ([], t)

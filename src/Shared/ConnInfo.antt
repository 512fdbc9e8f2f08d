-- ===== src/Shared/ConnInfo.antt =====
-- src/shared/conn-info.ts: what the plane and a service accept of a forwarded connection.
use service_plane.Prelude.{
  ℕ, ◌≡◌, refl, subst, inl, inr, Bool, true, false, ◌&&◌, ◌||◌, not, Option, none, some, arith,
}
use service_plane.Prelude.Tests.{leb, nat_eq, if◌then◌else◌, Bool-cases}
use service_plane.Prelude.Lists.{length, is_nil, all}
use service_plane.Prelude.Text.{Text, text, ◌==◌}
use service_plane.Prelude.Number.{JsNumber, is_integer, is_below, exceeds}
use service_plane.Prelude.Value.{
  Value, undefined, null, bool, str, num, arr, obj, field, end, prop, own,
}

-- `[A-Za-z0-9.:_\-[\]%]`
unfoldable pub is_address_unit : ℕ → Bool
is_address_unit c =
    leb b'A' c && leb c b'Z'
    || leb b'a' c && leb c b'z'
    || leb b'0' c && leb c b'9'
    || nat_eq c b'.'
    || nat_eq c b':'
    || nat_eq c b'_'
    || nat_eq c b'-'
    || nat_eq c b'['
    || nat_eq c b']'
    || nat_eq c b'%'

unfoldable pub matches_address : Text → Bool
unfolding is_address_unit
matches_address s = not (is_nil s) && leb (length s) 255 && all is_address_unit s

-- The property where it passes its test.
unfoldable pub address_of : Value → Option Text
unfolding matches_address
address_of (str s) = if matches_address s then some s else none
address_of _ = none

unfoldable pub one_of_two : Text → Text → Value → Option Text
one_of_two a b (str s) = if s == a || s == b then some s else none
one_of_two a b _ = none

unfoldable pub port_of : Value → Option JsNumber
port_of (num x) =
    if is_integer x && not (is_below x 0) && not (exceeds x 65535) then some x else none
port_of _ = none

pub record RemoteInfo : Type 0 where
  pub address : Option Text
  pub address_type : Option Text
  pub port : Option JsNumber
  pub transport : Option Text

-- A type without an address says nothing.
abbrev pub with_address : Option Text → Option Text → Option Text
with_address none address_type = none
with_address (some address) address_type = address_type

says_something : Option Text → Option JsNumber → Option Text → Bool
says_something none none none = false
says_something _ _ _ = true

-- `!remote`
unfoldable pub is_missing : Value → Bool
is_missing undefined = true
is_missing null = true
is_missing _ = false

-- normalizeConnInfo(connInfo), of its `remote`: an object, or nothing
unfoldable pub normalize_conn_info : Value → Option RemoteInfo
unfolding address_of one_of_two port_of says_something is_missing
normalize_conn_info remote =
    let address = address_of (prop (text "address") remote) in
    let port = port_of (prop (text "port") remote) in
    let transport = one_of_two (text "tcp") (text "udp") (prop (text "transport") remote) in
    if is_missing remote || not (says_something address port transport)
    then none
    else some (record {
      address = address;
      address_type =
          with_address address
            (one_of_two (text "IPv4") (text "IPv6") (prop (text "addressType") remote));
      port = port;
      transport = transport;
    })

abbrev pub text_value : Option Text → Value
text_value none = undefined
text_value (some s) = str s

abbrev pub port_value : Option JsNumber → Value
port_value none = undefined
port_value (some x) = num x

-- The `remote` that is sent; a field that is left out is undefined.
abbrev pub remote_value : RemoteInfo → Value
remote_value r = obj (
    field (text "address") (text_value r.address) (
      field (text "addressType") (text_value r.address_type) (
        field (text "port") (port_value r.port)
          (field (text "transport") (text_value r.transport) end))))

address_of_idem : (v : Value) → address_of (text_value (address_of v)) ≡ address_of v
unfolding address_of
address_of_idem (str s) = elim (Bool-cases (matches_address s)) [
  | inl ok ↦ rw (ok, ok) refl
  | inr bad ↦ rw bad refl
]
address_of_idem undefined = refl
address_of_idem null = refl
address_of_idem (bool b) = refl
address_of_idem (num x) = refl
address_of_idem (arr vs) = refl
address_of_idem (obj fs) = refl

one_of_two_idem :
    (a b : Text) (v : Value) → one_of_two a b (text_value (one_of_two a b v)) ≡ one_of_two a b v
unfolding one_of_two
one_of_two_idem a b (str s) = elim (Bool-cases (s == a || s == b)) [
  | inl ok ↦ rw (ok, ok) refl
  | inr bad ↦ rw bad refl
]
one_of_two_idem a b undefined = refl
one_of_two_idem a b null = refl
one_of_two_idem a b (bool c) = refl
one_of_two_idem a b (num x) = refl
one_of_two_idem a b (arr vs) = refl
one_of_two_idem a b (obj fs) = refl

port_of_idem : (v : Value) → port_of (port_value (port_of v)) ≡ port_of v
unfolding port_of
port_of_idem (num x) =
    elim (Bool-cases (is_integer x && not (is_below x 0) && not (exceeds x 65535))) [
      | inl passes ↦ rw (passes, passes) refl
      | inr fails ↦ rw fails refl
    ]
port_of_idem undefined = refl
port_of_idem null = refl
port_of_idem (bool b) = refl
port_of_idem (str s) = refl
port_of_idem (arr vs) = refl
port_of_idem (obj fs) = refl

with_address_idem :
    (a b : Text) (address : Option Text) (v : Value)
    → with_address address (one_of_two a b (text_value (with_address address (one_of_two a b v))))
      ≡ with_address address (one_of_two a b v)
with_address_idem a b none v = refl
with_address_idem a b (some address) v = one_of_two_idem a b v

normalize-remote_value :
    (r : RemoteInfo)
    → address_of (text_value r.address) ≡ r.address
    → with_address r.address (one_of_two (text "IPv4") (text "IPv6") (text_value r.address_type))
      ≡ r.address_type
    → port_of (port_value r.port) ≡ r.port
    → one_of_two (text "tcp") (text "udp") (text_value r.transport) ≡ r.transport
    → says_something r.address r.port r.transport ≡ true
    → normalize_conn_info (remote_value r) ≡ some r
unfolding normalize_conn_info prop own ◌==◌
normalize-remote_value r a t p u s = rw (a, t, p, u, s) refl

some_remote : {r q : RemoteInfo} → some r ≡ some q → r ≡ q
some_remote e = cc

-- What the plane accepts of a connection and sends, a service reads back as it is.
pub normalize_conn_info-remote_value :
    (remote : Value) (r : RemoteInfo)
    → normalize_conn_info remote ≡ some r
    → normalize_conn_info (remote_value r) ≡ some r
unfolding normalize_conn_info
normalize_conn_info-remote_value remote r =
    let address = address_of (prop (text "address") remote) in
    let port = port_of (prop (text "port") remote) in
    let transport = one_of_two (text "tcp") (text "udp") (prop (text "transport") remote) in
    elim (Bool-cases (is_missing remote)) [
      | inl missing ↦ rw missing (λ h. ground arith)
      | inr there ↦ rw there (elim (Bool-cases (says_something address port transport)) [
        | inr nothing ↦ rw nothing (λ h. ground arith)
        | inl something ↦ rw something (λ h.
            subst (λ q. normalize_conn_info (remote_value q) ≡ some q) (some_remote h)
              (normalize-remote_value _ (address_of_idem (prop (text "address") remote))
                (with_address_idem (text "IPv4") (text "IPv6") address
                  (prop (text "addressType") remote))
                (port_of_idem (prop (text "port") remote))
                (one_of_two_idem (text "tcp") (text "udp") (prop (text "transport") remote))
                something))
      ])
    ]

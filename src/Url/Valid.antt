-- ===== src/Url/Valid.antt =====
-- What holds of every URL that the constructor accepts.
use kdump.Prelude.{
  is_empty, true, false, not, ◌&&◌, ◌||◌, [], ◌∷◌, ◌≡◌, arith, Bytes, ok, throw, >>=-eq-ok,
  if◌then◌else◌, Bool-cases, inl, inr, ==_iff,
}
use kdump.Prelude.Int.{ℤ}
use kdump.KString.Url.{decode_url-cons, decode_url_total}
use kdump.Url.Parser.{
  Url, relative_path, is_file, starts_slash, default_user, decode, find_protocol, finish, UserInfo,
  complete, extract_scheme, extract_authority, split_port, split_userinfo, parse_url,
}

-- An accepted URL: the string is kept, the path is absolute, a local file has no host, and a
-- protocol with a default user has a user.
pub record IsValid (s : Bytes) (u : Url) : Type 0 where
  pub keeps_url : u.url ≡ s
  pub absolute : starts_slash u.path ≡ true
  pub local_file : (is_file u.protocol && not (is_empty u.hostname)) ≡ false
  pub has_user : (is_empty (default_user u.protocol) || not (is_empty u.username)) ≡ true

finish-IsValid : (w u : Url) → starts_slash w.path ≡ true → finish w ≡ ok u → IsValid w.url u
unfolding finish
finish-IsValid w u h e = ground arith

decode-starts_slash :
    (s t : Bytes) → starts_slash s ≡ true → decode s ≡ ok t → starts_slash t ≡ true
unfolding decode
decode-starts_slash [] t h e = cc
decode-starts_slash (c ∷ s) t h e =
    let (r, total, _) = decode_url_total false s in
    ground (arith, decode_url-cons c s, (==_iff c b'/').0 h, total)

complete-IsValid :
    (url scheme : Bytes) (port : ℤ) (info : UserInfo) (path : Bytes) (u : Url)
    → starts_slash path ≡ true
    → complete url scheme port info path ≡ ok u
    → IsValid url u
unfolding complete
complete-IsValid url scheme port info path u h e =
    let (hostname, _, e1) = >>=-eq-ok (decode info.hostname) _ e in
    let (password, _, e2) = >>=-eq-ok (decode info.password) _ e1 in
    let (username, _, e3) = >>=-eq-ok (decode info.username) _ e2 in
    let (decoded, d, e4) = >>=-eq-ok (decode path) _ e3 in
    let (protocol, _, e5) = >>=-eq-ok (find_protocol scheme hostname) _ e4 in
    let w : Url = record {
      url = url;
      protocol = protocol;
      hostname = hostname;
      port = port;
      username = username;
      password = password;
      path = decoded;
    } in
    finish-IsValid w u (decode-starts_slash path decoded h d) e5

parts-IsValid :
    (url scheme authority path : Bytes) (u : Url)
    → (let (login, port) = split_port authority in
        if not (starts_slash path)
        then throw relative_path
        else complete url scheme port (split_userinfo login) path)
      ≡ ok u
    → IsValid url u
parts-IsValid url scheme authority path u e = elim (Bool-cases (starts_slash path)) [
  | inl slash ↦
      let (login, port) = split_port authority in
      complete-IsValid url scheme port (split_userinfo login) path u slash (rw slash at e)
  | inr none_there ↦ let refused : throw relative_path ≡ ok u = rw none_there at e in cc
]

-- Of any URL that the constructor accepts: the string is kept, the path is absolute even after
-- decoding, a local file has no host, and a protocol with a default user has a user.
pub parse_url-IsValid : (s : Bytes) (u : Url) → parse_url s ≡ ok u → IsValid s u
parse_url-IsValid s u e =
    let (scheme, behind) = extract_scheme s in
    let (authority, path) = extract_authority behind in
    parts-IsValid s scheme authority path u (unfold parse_url in e)

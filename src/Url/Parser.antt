-- ===== src/Url/Parser.antt =====
-- `URLParser`: the protocols, and the constructor step by step. An iterator into the URL is the
-- suffix that it points to; two iterators around a piece are that piece.
use kdump.Prelude.{
  is_empty, ℕ, ◌+◌, Bool, true, false, not, ◌&&◌, ◌||◌, [], ◌∷◌, map, Option, none, some, Bytes,
  codes, Result, ok, throw, ◌>>=◌, ◌==◌, if◌then◌else◌, within, isalpha, isdigit, equal, last_byte,
  erase_last, take, drop, suc,
}
use kdump.Prelude.Int.{ℤ, negsuc}
use kdump.KString.Url.{HexError, decode_url}
use kdump.KString.Search.{find, rfind}
use kdump.KString.Number.{as_int}

pub data Protocol : Type 0 where
  file ftp sftp ssh nfs cifs : Protocol

pub data UrlError : Type 0 where
  -- "Empty protocols are not allowed."
  empty_protocol : UrlError
  -- "Protocol … is invalid."
  invalid_protocol : Bytes → UrlError
  -- "URLParser: Only absolute paths are supported."
  relative_path : UrlError
  -- "File protocol cannot specify a remote host"
  remote_file : UrlError
  bad_escape : HexError → UrlError

unfoldable pub protocol2string : Protocol → Bytes
protocol2string file = codes "file"
protocol2string ftp = codes "ftp"
protocol2string sftp = codes "sftp"
protocol2string ssh = codes "ssh"
protocol2string nfs = codes "nfs"
protocol2string cifs = codes "cifs"

abbrev pub tolower : ℕ → ℕ
tolower c = if within b'A' b'Z' c then c + 32 else c

-- `c_str()`, which a C function reads up to the first zero.
unfoldable pub c_str : Bytes → Bytes
c_str [] = []
c_str (c ∷ s) = if c == 0 then [] else c ∷ c_str s

-- strcasecmp(a.c_str(), b) == 0, for a literal in lower case
unfoldable pub same_nocase : Bytes → Bytes → Bool
unfolding c_str equal
same_nocase a b = equal (map tolower (c_str a)) b

unfoldable pub string2protocol : Bytes → Result UrlError Protocol
unfolding same_nocase
string2protocol protocol =
    if is_empty protocol
    then throw empty_protocol
    else if same_nocase protocol (codes "file")
    then ok file
    else if same_nocase protocol (codes "ftp")
    then ok ftp
    else if same_nocase protocol (codes "scp")
    then ok sftp
    else if same_nocase protocol (codes "sftp")
    then ok sftp
    else if same_nocase protocol (codes "scp")
    then ok sftp
    else if same_nocase protocol (codes "ssh")
    then ok ssh
    else if same_nocase protocol (codes "nfs")
    then ok nfs
    else if same_nocase protocol (codes "cifs")
    then ok cifs
    else if same_nocase protocol (codes "smb")
    then ok cifs
    else throw (invalid_protocol protocol)

-- The loops over `it`: the bytes up to the first one that `stop` holds of, and the rest.
unfoldable pub scan : (ℕ → Bool) → Bytes → Bytes × Bytes
scan stop [] = ([], [])
scan stop (c ∷ s) =
    let (before, rest) = scan stop s in if stop c then ([], c ∷ s) else (c ∷ before, rest)

abbrev pub ends_scheme : ℕ → Bool
ends_scheme c = c == b':' || c == b'/' || c == b'?' || c == b'#'

abbrev pub ends_authority : ℕ → Bool
ends_authority c = c == b'/' || c == b'?' || c == b'#'

-- What is found where the loop of `extractScheme` stops; with no ':' there the URL is not read.
scheme_end : Bytes → Bytes → Bytes → Bytes × Bytes
scheme_end url scheme [] = ([], url)
scheme_end url scheme (c ∷ rest) = if c == b':' then (scheme, rest) else ([], url)

-- The scheme, and the URL from `it` on.
unfoldable pub extract_scheme : Bytes → Bytes × Bytes
unfolding scan scheme_end
extract_scheme [] = ([], [])
extract_scheme (c ∷ s) =
    let (before, rest) = scan ends_scheme s in
    if not (isalpha c) then ([], c ∷ s) else scheme_end (c ∷ s) (c ∷ before) rest

unfoldable pub extract_authority : Bytes → Bytes × Bytes
unfolding scan
extract_authority (a ∷ b ∷ s) =
    if not (a == b'/') || not (b == b'/') then ([], a ∷ b ∷ s) else scan ends_authority s
extract_authority s = ([], s)

-- The loop from the end of the authority: all before the last digits, and these.
unfoldable pub last_digits : Bytes → Bytes × Bytes
last_digits [] = ([], [])
last_digits (c ∷ s) =
    let (before, digits) = last_digits s in
    if is_empty before && isdigit c then ([], c ∷ digits) else (c ∷ before, digits)

-- Digits are not blank, so that `asInt` has a result.
abbrev pub port_of : Option ℤ → ℤ
port_of none = negsuc 0
port_of (some n) = n

-- The authority without the port, and the port, which stays -1 if there is none.
unfoldable pub split_port : Bytes → Bytes × ℤ
unfolding last_digits last_byte erase_last as_int
split_port authority =
    let (before, digits) = last_digits authority in
    if not (is_empty before) && last_byte before == b':'
    then (erase_last before, if is_empty digits then negsuc 0 else port_of (as_int digits))
    else (authority, negsuc 0)

pub record UserInfo : Type 0 where
  pub username : Bytes
  pub password : Bytes
  pub hostname : Bytes

unfoldable pub split_password : Bytes → Bytes → UserInfo
unfolding find
split_password info host = elim (find info b':') [
  | none ↦ record { username = info; password = []; hostname = host }
  | some n ↦ record { username = take n info; password = drop (suc n) info; hostname = host }
]

unfoldable pub split_userinfo : Bytes → UserInfo
unfolding rfind split_password
split_userinfo authority = elim (rfind authority b'@') [
  | none ↦ record { username = []; password = []; hostname = authority }
  | some n ↦ split_password (take n authority) (drop (suc n) authority)
]

unfoldable pub decode : Bytes → Result UrlError Bytes
unfolding decode_url
decode s = elim (decode_url false s) [ ok t ↦ ok t | throw e ↦ throw (bad_escape e) ]

-- The protocol, guessed if there is no scheme.
unfoldable pub find_protocol : Bytes → Bytes → Result UrlError Protocol
unfolding string2protocol
find_protocol scheme hostname =
    if is_empty scheme
    then (if is_empty hostname || equal hostname (codes "localhost") then ok file else ok nfs)
    else string2protocol scheme

abbrev pub is_file : Protocol → Bool
is_file file = true
is_file _ = false

unfoldable pub default_user : Protocol → Bytes
default_user ftp = codes "anonymous"
default_user sftp = codes "root"
default_user ssh = codes "root"
default_user _ = []

pub record Url : Type 0 where
  pub url : Bytes
  pub protocol : Protocol
  pub hostname : Bytes
  pub port : ℤ
  pub username : Bytes
  pub password : Bytes
  pub path : Bytes

-- "protocol-specific defaults" and "sanity checks"
unfoldable pub finish : Url → Result UrlError Url
unfolding equal default_user
finish u =
    let hostname =
      if is_file u.protocol && equal u.hostname (codes "localhost") then [] else u.hostname in
    if is_file u.protocol && not (is_empty hostname)
    then throw remote_file
    else ok (record u {
      hostname = hostname;
      username = if is_empty u.username then default_user u.protocol else u.username;
    })

abbrev pub starts_slash : Bytes → Bool
starts_slash [] = false
starts_slash (c ∷ s) = c == b'/'

-- From "undo percent encoding" on.
unfoldable pub complete : Bytes → Bytes → ℤ → UserInfo → Bytes → Result UrlError Url
complete url scheme port info path = do
  hostname ← decode info.hostname
  password ← decode info.password
  username ← decode info.username
  decoded ← decode path
  protocol ← find_protocol scheme hostname
  finish (record {
    url = url;
    protocol = protocol;
    hostname = hostname;
    port = port;
    username = username;
    password = password;
    path = decoded;
  })

-- The constructor.
unfoldable pub parse_url : Bytes → Result UrlError Url
unfolding extract_scheme extract_authority split_port split_userinfo
parse_url url =
    let (scheme, behind) = extract_scheme url in
    let (authority, path) = extract_authority behind in
    let (login, port) = split_port authority in
    if not (starts_slash path)
    then throw relative_path
    else complete url scheme port (split_userinfo login) path

-- ===== src/Url/RoundTrip.antt =====
-- URLs that are put together from their parts, and the parser.
use kdump.Prelude.{is_empty, ℕ, ◌≤◌, false, ◌∷◌, ◌++◌, ◌≡◌, refl, arith, Bytes, ok, All}
use kdump.Prelude.Int.{pos}
use kdump.KString.Number.{int_max}
use kdump.Url.Parser.{
  Protocol, file, ftp, sftp, ssh, nfs, cifs, protocol2string, string2protocol, is_file,
  ends_authority, extract_authority, find_protocol, finish, Url, complete, parse_url,
}
use kdump.Url.Text.{
  encode, login_text, authority_text, url_text, extract_scheme-text, scan-append, split_port-append,
  AreBytes, split_userinfo-text, decode-encode, decode-encode_path, authority_text-All,
}

-- Every protocol's name is read back as the protocol.
pub string2protocol-protocol2string : (p : Protocol) → string2protocol (protocol2string p) ≡ ok p
unfolding string2protocol protocol2string
string2protocol-protocol2string file = refl
string2protocol-protocol2string ftp = refl
string2protocol-protocol2string sftp = refl
string2protocol-protocol2string ssh = refl
string2protocol-protocol2string nfs = refl
string2protocol-protocol2string cifs = refl

extract_authority-text :
    (auth path : Bytes)
    → All (λ c. ends_authority c ≡ false) auth
    → extract_authority (b'/' ∷ b'/' ∷ (auth ++ b'/' ∷ path)) ≡ (auth, b'/' ∷ path)
unfolding extract_authority
extract_authority-text auth path h = scan-append ends_authority auth b'/' path h refl

find_protocol-text : (p : Protocol) (host : Bytes) → find_protocol (protocol2string p) host ≡ ok p
unfolding find_protocol protocol2string
find_protocol-text file host = refl
find_protocol-text ftp host = refl
find_protocol-text sftp host = refl
find_protocol-text ssh host = refl
find_protocol-text nfs host = refl
find_protocol-text cifs host = refl

finish_plain :
    (u : Url) → is_file u.protocol ≡ false → is_empty u.username ≡ false → finish u ≡ ok u
unfolding finish
finish_plain u f n = ground arith

complete-text :
    (url : Bytes) (p : Protocol) (user password host : Bytes) (port : ℕ) (path : Bytes)
    → is_file p ≡ false
    → is_empty user ≡ false
    → AreBytes user
    → AreBytes password
    → AreBytes host
    → AreBytes path
    → complete url
        (protocol2string p)
        (pos port)
        (record { username = encode user; password = encode password; hostname = encode host })
        (b'/' ∷ encode path)
      ≡ ok (record {
        url = url;
        protocol = p;
        hostname = host;
        port = pos port;
        username = user;
        password = password;
        path = b'/' ∷ path;
      })
unfolding complete
complete-text url p user password host port path f n hu hp hh hpath = rw (decode-encode host hh) (
    rw (decode-encode password hp) (
      rw (decode-encode user hu) (
        rw (decode-encode_path path hpath) (
          rw (find_protocol-text p host) (
            finish_plain
              (record {
                url = url;
                protocol = p;
                hostname = host;
                port = pos port;
                username = user;
                password = password;
                path = b'/' ∷ path;
              })
              f n)))))

-- A URL with a protocol other than `file` is taken apart into the parts that it was put together
-- from: the protocol, the user, the password, the host, the port and the absolute path, each
-- percent-encoded. The parts are bytes, the user is not empty, and the port is in the range of
-- `int`.
pub parse_url-url_text :
    (p : Protocol) (user password host : Bytes) (port : ℕ) (path : Bytes)
    → is_file p ≡ false
    → is_empty user ≡ false
    → port ≤ int_max
    → AreBytes user
    → AreBytes password
    → AreBytes host
    → AreBytes path
    → parse_url (url_text p user password host port path)
      ≡ ok (record {
        url = url_text p user password host port path;
        protocol = p;
        hostname = host;
        port = pos port;
        username = user;
        password = password;
        path = b'/' ∷ path;
      })
unfolding parse_url
parse_url-url_text p user password host port path f n fits hu hp hh hpath =
    let auth = authority_text user password host port in
    rw (extract_scheme-text p (b'/' ∷ (auth ++ b'/' ∷ encode path))) (
      rw
        (extract_authority-text auth (encode path)
          (authority_text-All user password host port hu hp hh))
        (rw (split_port-append (login_text user password host) port fits) (
          rw (split_userinfo-text user password host hu hp hh) (
            complete-text (url_text p user password host port path) p user password host port path f
              n hu hp hh hpath))))

-- ===== src/Url/Tests.antt =====
-- Runs of `URLParser`.
use kdump.Prelude.{◌≡◌, refl, arith, codes, ok, throw, []}
use kdump.Prelude.Int.{pos, negsuc}
use kdump.Url.Parser.{
  Url, file, sftp, remote_file, relative_path, decode, find_protocol, finish, complete, parse_url,
}
use kdump.Url.Valid.{IsValid, parse_url-IsValid}
use kdump.Url.Text.{url_text}
use kdump.Url.RoundTrip.{parse_url-url_text}

abbrev local : Url
local = record {
  url = codes "file://localhost/var/crash";
  protocol = file;
  hostname = [];
  port = negsuc 0;
  username = [];
  password = [];
  path = codes "/var/crash";
}

abbrev remote : Url
remote = record {
  url = codes "sftp://me:pw@h:22/d%20e";
  protocol = sftp;
  hostname = codes "h";
  port = pos 22;
  username = codes "me";
  password = codes "pw";
  path = codes "/d e";
}

parse_local : parse_url (codes "file://localhost/var/crash") ≡ ok local
unfolding parse_url complete decode find_protocol finish
parse_local = refl

parse_remote : parse_url (codes "sftp://me:pw@h:22/d%20e") ≡ ok remote
unfolding parse_url complete decode find_protocol finish
parse_remote = refl

parse_refused :
    (parse_url (codes "file://host/var") ≡ throw remote_file)
    × (parse_url (codes "sftp://host") ≡ throw relative_path)
unfolding parse_url complete decode find_protocol finish
parse_refused = (refl, refl)

parse_url-IsValid_example : IsValid (codes "sftp://me:pw@h:22/d%20e") remote
parse_url-IsValid_example = parse_url-IsValid (codes "sftp://me:pw@h:22/d%20e") remote parse_remote

parse_url-url_text_example :
    parse_url (url_text sftp (codes "me") (codes "p@w") (codes "h") 22 (codes "d e"))
    ≡ ok (record {
      url = url_text sftp (codes "me") (codes "p@w") (codes "h") 22 (codes "d e");
      protocol = sftp;
      hostname = codes "h";
      port = pos 22;
      username = codes "me";
      password = codes "p@w";
      path = codes "/d e";
    })
parse_url-url_text_example =
    parse_url-url_text sftp (codes "me") (codes "p@w") (codes "h") 22 (codes "d e") refl refl
      (omega arith) (omega arith) (omega arith) (omega arith) (omega arith)

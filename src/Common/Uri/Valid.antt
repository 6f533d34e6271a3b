-- ===== src/Common/Uri/Valid.antt =====
-- What a URI that was constructed is: source/common/uri_impl.cc.
use nighthawk.Base.{not}
use nighthawk.Base.Chars.{Chars}
use nighthawk.Base.Result.{Result, ok, throw_if, ◌>>◌}
use nighthawk.Common.Uri.{Uri, is_valid_uri}

abbrev checked : Uri → Result Uri
unfolding is_valid_uri
checked u = throw_if (not (is_valid_uri u)) "Invalid URI" >> ok u

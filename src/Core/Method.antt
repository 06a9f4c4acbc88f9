-- ===== src/Core/Method.antt =====
-- fox-core/src/model.rs, `HttpMethod`.
use rust_fox.Prelude.{◌≡◌, refl, Option, none, some, if◌then◌else◌, ◌==◌, list_eq, nat_eq}
use rust_fox.Prelude.Text.{Text, codes}
use rust_fox.Core.External.{CaseMaps}

pub data HttpMethod : Type 0 where
  get post put delete patch head options grpc : HttpMethod

unfoldable pub as_str : HttpMethod → Text
as_str get = codes "GET"
as_str post = codes "POST"
as_str put = codes "PUT"
as_str delete = codes "DELETE"
as_str patch = codes "PATCH"
as_str head = codes "HEAD"
as_str options = codes "OPTIONS"
as_str grpc = codes "GRPC"

-- `str::parse::<HttpMethod>().ok()`
unfoldable pub from_str : CaseMaps → Text → Option HttpMethod
from_str cases s =
    let u = cases.to_uppercase s in
    if u == codes "GET"
    then some get
    else if u == codes "POST"
    then some post
    else if u == codes "PUT"
    then some put
    else if u == codes "DELETE"
    then some delete
    else if u == codes "PATCH"
    then some patch
    else if u == codes "HEAD"
    then some head
    else if u == codes "OPTIONS"
    then some options
    else if u == codes "GRPC"
    then some grpc
    else none

-- Reading the printed form of a method gives the method back, if the upper-case mapping leaves the
-- printed form alone.
pub from_str-as_str :
    (cases : CaseMaps) (m : HttpMethod)
    → cases.to_uppercase (as_str m) ≡ as_str m
    → from_str cases (as_str m) ≡ some m
unfolding from_str as_str
from_str-as_str cases get h = rw h refl
from_str-as_str cases post h = rw h refl
from_str-as_str cases put h = rw h refl
from_str-as_str cases delete h = rw h refl
from_str-as_str cases patch h = rw h refl
from_str-as_str cases head h = rw h refl
from_str-as_str cases options h = rw h refl
from_str-as_str cases grpc h = rw h refl

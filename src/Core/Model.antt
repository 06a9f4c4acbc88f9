-- ===== src/Core/Model.antt =====
-- fox-core/src/model.rs: the parts of a request. Instants are counted in seconds.
use rust_fox.Prelude.{ℕ, Bool, true, List, [], Option}
use rust_fox.Prelude.Dict.{Dict}
use rust_fox.Prelude.Int.{ℤ}
use rust_fox.Prelude.Text.{Text}
use rust_fox.Core.Method.{HttpMethod}

pub data FieldType : Type 0 where
  string number boolean object : FieldType

pub record KeyValue : Type 0 where
  pub key : Text
  pub value : Text
  pub enabled : Bool
  pub description : Text
  pub field_type : FieldType
  pub required : Bool
  pub example : Text

-- `KeyValue::new`
unfoldable pub new_key_value : Text → Text → KeyValue
new_key_value k v = record {
  key = k;
  value = v;
  enabled = true;
  description = [];
  field_type = string;
  required = true;
  example = [];
}

pub data ApiKeyLocation : Type 0 where
  header query : ApiKeyLocation

pub data SignatureAlgorithm : Type 0 where
  md5 sha256 hmac_sha256 : SignatureAlgorithm

pub data SignatureEncoding : Type 0 where
  hex_lower hex_upper base64 : SignatureEncoding

pub record DynamicSignatureConfig : Type 0 where
  pub app_key : Text
  pub app_secret : Text
  pub key_header : Text
  pub timestamp_header : Text
  pub sig_header : Text
  pub algorithm : SignatureAlgorithm
  pub encoding : SignatureEncoding
  pub payload_template : Text

pub record OAuth2Token : Type 0 where
  pub access_token : Text
  pub token_type : Text
  pub refresh_token : Option Text
  pub expires_at : ℕ

pub data AuthSpec : Type 0 where
  no_auth : AuthSpec
  bearer : (token : Text) → AuthSpec
  basic : (username password : Text) → AuthSpec
  api_key : (key value : Text) → ApiKeyLocation → AuthSpec
  dynamic_signature : DynamicSignatureConfig → AuthSpec
  oauth2 :
      (client_id client_secret auth_url token_url scope redirect_uri : Text)
      → Option OAuth2Token
      → AuthSpec
  digest : (username password : Text) → AuthSpec
  hawk : (key_id key : Text) → AuthSpec
  aws_v4 : (access_key secret_key region service : Text) → (session_token : Option Text) → AuthSpec
  hmac : (access_key secret_key : Text) → AuthSpec

pub data MultipartValueType : Type 0 where
  text_value file_path : MultipartValueType

pub record MultipartField : Type 0 where
  pub key : Text
  pub value_type : MultipartValueType
  pub value : Text
  pub enabled : Bool

pub record GraphQlSpec : Type 0 where
  pub query : Text
  pub variables : Text
  pub operation_name : Text

pub record GrpcSpec : Type 0 where
  pub service : Text
  pub method : Text
  pub message : Text
  pub use_tls : Bool
  pub proto_ids : List Text

pub data BodySpec : Type 0 where
  no_body : BodySpec
  json : (raw : Text) → BodySpec
  text : (raw : Text) → BodySpec
  url_encoded : List KeyValue → BodySpec
  multipart : List MultipartField → BodySpec
  graph_ql : GraphQlSpec → BodySpec
  binary : (file_path : Text) → BodySpec
  grpc : GrpcSpec → BodySpec

pub data EndpointStatus : Type 0 where
  designing developing testing released deprecated : EndpointStatus

pub record FieldDoc : Type 0 where
  pub description : Text
  pub required : Bool

-- `Json` stands for `serde_json::Value`.
pub record RequestSpec (Json : Type 0) : Type 0 where
  pub params : List KeyValue
  pub headers : List KeyValue
  pub path_variables : List KeyValue
  pub auth : AuthSpec
  pub body : BodySpec
  pub active_tab : Option Text
  pub timeout_ms : Option ℕ
  pub follow_redirects : Bool
  pub tests : Option Json
  pub disable_cookies : Bool
  pub body_docs : Dict Text FieldDoc

pub record Endpoint (Json : Type 0) : Type 0 where
  pub id : Text
  pub project_id : Text
  pub folder_id : Option Text
  pub name : Text
  pub method : HttpMethod
  pub path : Text
  pub description : Text
  pub status : EndpointStatus
  pub sort_order : ℤ
  pub request : RequestSpec Json
  pub created_at : ℕ
  pub updated_at : ℕ

-- ===== src/Common/Join.antt =====
-- The join file, which the master writes (CPCluster_masterNode/src/lib.rs), and from which
-- CPCluster_node/src/main.rs and cpcluster_client/src/main.rs learn its address and the token.
use cpcluster.Prelude.{String, Option, none, some, Result, ok, err, io_error, json_error}
use cpcluster.Prelude.Dict
use cpcluster.Prelude.Dict.{Dict}
use cpcluster.Prelude.Files.{Files, read}
use cpcluster.Common.Protocol.{JoinInfo}

-- serde_json, at this type.
pub record Format : Type 0 where
  pub to_string_pretty : JoinInfo → Option String
  pub from_str : String → Option JoinInfo

-- `CPCLUSTER_TOKEN` takes the place of the token of the file.
abbrev pub override_token : Option String → JoinInfo → JoinInfo
override_token none info = info
override_token (some token) info = record info { token = token }

unfoldable pub read_join : Format → String → Dict String → Files String → Result JoinInfo
read_join json path vars files = elim (read path files) [
  | none ↦ err io_error
  | some text ↦ elim (json.from_str text) [
    | none ↦ err json_error
    | some info ↦ ok (override_token (Dict.get "CPCLUSTER_TOKEN" vars) info)
  ]
]

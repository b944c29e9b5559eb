-- ===== src/Release/Owned.antt =====
-- The blocks that a response and a request consist of, in the order in which they are freed.
use bsle.Prelude.{Bool, true, false, Option, none, some, List, [], ◌∷◌, ◌++◌, if◌then◌else◌}
use bsle.Release.{
  HashAt, ContentAt, RespAt, StdAt, PayloadType, UnionAt, null_at, std_at, user_at, WireAt, cleared,
}
use bsle.Release.Blocks.{Step, buffer, structure, kept}

abbrev pub hash_blocks : Option HashAt → List Step
hash_blocks none = []
hash_blocks (some p) = buffer p.array ∷ structure p.at ∷ []

abbrev pub content_blocks : Option ContentAt → List Step
content_blocks none = []
content_blocks (some p) =
    hash_blocks p.hash ++ (buffer p.stream ∷ buffer p.path ∷ structure p.at ∷ [])

abbrev pub resp_blocks : Option RespAt → List Step
resp_blocks none = []
resp_blocks (some p) = content_blocks p.content ++ (structure p.at ∷ [])

-- The blocks of the union that the type names: all but the stream of the hash.
abbrev pub payload_blocks : PayloadType → UnionAt → List Step
payload_blocks PayloadType.std_type (std_at p) =
    buffer p.path ∷ buffer p.byte_stream ∷ structure p.at ∷ []
payload_blocks PayloadType.user_type (user_at p) =
    buffer p.username ∷ buffer p.passwd ∷ structure p.at ∷ []
payload_blocks _ _ = []

-- All blocks of the payload of a file request.
abbrev pub std_blocks : StdAt → List Step
std_blocks s = buffer s.path ∷ buffer s.byte_stream ∷ buffer s.hash_stream ∷ structure s.at ∷ []

-- The request itself is freed or only cleared.
abbrev pub own_blocks : Bool → WireAt → List Step
own_blocks free_wire_payload p =
    buffer p.username
    ∷ buffer p.passwd
    ∷ (if free_wire_payload then structure p.at else kept p.at)
    ∷ []

abbrev pub wire_blocks : Bool → Option WireAt → List Step
wire_blocks free_wire_payload none = []
wire_blocks free_wire_payload (some p) =
    payload_blocks p.type p.payload ++ own_blocks free_wire_payload p

-- Whether the type names what the union holds, if it names anything.
abbrev pub fits : PayloadType → UnionAt → Bool
fits PayloadType.no_type u = true
fits PayloadType.std_type (std_at p) = true
fits PayloadType.user_type (user_at p) = true
fits _ _ = false

-- The union afterwards.
abbrev pub union_left : PayloadType → UnionAt → UnionAt
union_left PayloadType.no_type u = u
union_left _ u = null_at

-- The request afterwards.
abbrev pub wire_left : Bool → WireAt → Option WireAt
wire_left free_wire_payload p = if free_wire_payload then none else some (cleared p)

-- The blocks that are freed: those of the response, then those of the request.
abbrev pub all_blocks : Bool → WireAt → Option RespAt → List Step
all_blocks free_wire_payload p o = resp_blocks o ++ wire_blocks free_wire_payload (some p)

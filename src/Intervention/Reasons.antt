-- ===== src/Intervention/Reasons.antt =====
-- `StandardReason` (src/ModSecurityIIS.cpp): the phrase of each status that it names.
use Prim.Native.String.{String}
use mod_security_iis.Prelude.{ℕ, List, [], ◌∷◌, ◌==◌, if◌then◌else◌}

abbrev reasons : List (ℕ × String)
reasons =
    (200, "OK")
    ∷ (301, "Moved Permanently")
    ∷ (302, "Found")
    ∷ (303, "See Other")
    ∷ (307, "Temporary Redirect")
    ∷ (308, "Permanent Redirect")
    ∷ (400, "Bad Request")
    ∷ (401, "Unauthorized")
    ∷ (403, "Forbidden")
    ∷ (404, "Not Found")
    ∷ (405, "Method Not Allowed")
    ∷ (406, "Not Acceptable")
    ∷ (407, "Proxy Authentication Required")
    ∷ (408, "Request Timeout")
    ∷ (409, "Conflict")
    ∷ (410, "Gone")
    ∷ (411, "Length Required")
    ∷ (412, "Precondition Failed")
    ∷ (413, "Content Too Large")
    ∷ (414, "URI Too Long")
    ∷ (415, "Unsupported Media Type")
    ∷ (416, "Range Not Satisfiable")
    ∷ (418, "I'm a teapot")
    ∷ (421, "Misdirected Request")
    ∷ (422, "Unprocessable Content")
    ∷ (423, "Locked")
    ∷ (428, "Precondition Required")
    ∷ (429, "Too Many Requests")
    ∷ (431, "Request Header Fields Too Large")
    ∷ (451, "Unavailable For Legal Reasons")
    ∷ (500, "Internal Server Error")
    ∷ (501, "Not Implemented")
    ∷ (502, "Bad Gateway")
    ∷ (503, "Service Unavailable")
    ∷ (504, "Gateway Timeout")
    ∷ (505, "HTTP Version Not Supported")
    ∷ []

find_reason : List (ℕ × String) → ℕ → String
find_reason [] status = "Rejected by ModSecurity"
find_reason ((s, phrase) ∷ rest) status = if status == s then phrase else find_reason rest status

pub standard_reason : ℕ → String
unfolding find_reason
standard_reason = find_reason reasons

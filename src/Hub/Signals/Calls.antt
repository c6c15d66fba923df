-- ===== src/Hub/Signals/Calls.antt =====
-- The map of calls of server/ws.go when a callee goes.
use hexeris_beta.Base.Dict.{Dict}
use hexeris_beta.Hub.Routing.{Hub}

-- ===== src/Server/Messages.antt =====
-- The texts of the messages of src/server.rs, as their UTF-8 bytes.
use apb.Prelude.{List, [], ◌∷◌, ◌++◌, Bool, true, false, ltb, if◌then◌else◌}
use apb.Proto.Types.{Text}

-- `agent `
abbrev agent_tick : Text
agent_tick = 97 ∷ 103 ∷ 101 ∷ 110 ∷ 116 ∷ 32 ∷ 96 ∷ []

-- ` is not connected (available: `
abbrev tick_not_connected : Text
tick_not_connected =
    96 ∷ 32 ∷ 105 ∷ 115 ∷ 32 ∷ 110 ∷ 111 ∷ 116 ∷ 32 ∷ 99 ∷ 111 ∷ 110 ∷ 110 ∷ 101 ∷ 99 ∷ 116 ∷ 101
    ∷ 100 ∷ 32 ∷ 40 ∷ 97 ∷ 118 ∷ 97 ∷ 105 ∷ 108 ∷ 97 ∷ 98 ∷ 108 ∷ 101 ∷ 58 ∷ 32 ∷ []

-- `)`
abbrev paren : Text
paren = 41 ∷ []

-- `, `
abbrev comma : Text
comma = 44 ∷ 32 ∷ []

-- `no agent is connected`
abbrev pub no_agent : Text
no_agent =
    110 ∷ 111 ∷ 32 ∷ 97 ∷ 103 ∷ 101 ∷ 110 ∷ 116 ∷ 32 ∷ 105 ∷ 115 ∷ 32 ∷ 99 ∷ 111 ∷ 110 ∷ 110 ∷ 101
    ∷ 99 ∷ 116 ∷ 101 ∷ 100 ∷ []

-- `multiple agents are connected; pass a name (available: `
abbrev several_agents : Text
several_agents =
    109 ∷ 117 ∷ 108 ∷ 116 ∷ 105 ∷ 112 ∷ 108 ∷ 101 ∷ 32 ∷ 97 ∷ 103 ∷ 101 ∷ 110 ∷ 116 ∷ 115 ∷ 32 ∷ 97
    ∷ 114 ∷ 101 ∷ 32 ∷ 99 ∷ 111 ∷ 110 ∷ 110 ∷ 101 ∷ 99 ∷ 116 ∷ 101 ∷ 100 ∷ 59 ∷ 32 ∷ 112 ∷ 97 ∷ 115
    ∷ 115 ∷ 32 ∷ 97 ∷ 32 ∷ 110 ∷ 97 ∷ 109 ∷ 101 ∷ 32 ∷ 40 ∷ 97 ∷ 118 ∷ 97 ∷ 105 ∷ 108 ∷ 97 ∷ 98
    ∷ 108 ∷ 101 ∷ 58 ∷ 32 ∷ []

-- ` is unreachable`
abbrev tick_unreachable : Text
tick_unreachable =
    96 ∷ 32 ∷ 105 ∷ 115 ∷ 32 ∷ 117 ∷ 110 ∷ 114 ∷ 101 ∷ 97 ∷ 99 ∷ 104 ∷ 97 ∷ 98 ∷ 108 ∷ 101 ∷ []

-- ` disconnected`
abbrev tick_disconnected : Text
tick_disconnected =
    96 ∷ 32 ∷ 100 ∷ 105 ∷ 115 ∷ 99 ∷ 111 ∷ 110 ∷ 110 ∷ 101 ∷ 99 ∷ 116 ∷ 101 ∷ 100 ∷ []

-- ` is already connected`
abbrev tick_already : Text
tick_already =
    96 ∷ 32 ∷ 105 ∷ 115 ∷ 32 ∷ 97 ∷ 108 ∷ 114 ∷ 101 ∷ 97 ∷ 100 ∷ 121 ∷ 32 ∷ 99 ∷ 111 ∷ 110 ∷ 110
    ∷ 101 ∷ 99 ∷ 116 ∷ 101 ∷ 100 ∷ []

-- `invalid agent name`
abbrev pub invalid_name : Text
invalid_name =
    105 ∷ 110 ∷ 118 ∷ 97 ∷ 108 ∷ 105 ∷ 100 ∷ 32 ∷ 97 ∷ 103 ∷ 101 ∷ 110 ∷ 116 ∷ 32 ∷ 110 ∷ 97 ∷ 109
    ∷ 101 ∷ []

-- `unknown role`
abbrev pub unknown_role : Text
unknown_role = 117 ∷ 110 ∷ 107 ∷ 110 ∷ 111 ∷ 119 ∷ 110 ∷ 32 ∷ 114 ∷ 111 ∷ 108 ∷ 101 ∷ []

-- `expected hello, got `
abbrev pub expected_hello : Text
expected_hello =
    101 ∷ 120 ∷ 112 ∷ 101 ∷ 99 ∷ 116 ∷ 101 ∷ 100 ∷ 32 ∷ 104 ∷ 101 ∷ 108 ∷ 108 ∷ 111 ∷ 44 ∷ 32 ∷ 103
    ∷ 111 ∷ 116 ∷ 32 ∷ []

-- `agent sent unexpected frame: `
abbrev pub agent_unexpected : Text
agent_unexpected =
    97 ∷ 103 ∷ 101 ∷ 110 ∷ 116 ∷ 32 ∷ 115 ∷ 101 ∷ 110 ∷ 116 ∷ 32 ∷ 117 ∷ 110 ∷ 101 ∷ 120 ∷ 112 ∷ 101
    ∷ 99 ∷ 116 ∷ 101 ∷ 100 ∷ 32 ∷ 102 ∷ 114 ∷ 97 ∷ 109 ∷ 101 ∷ 58 ∷ 32 ∷ []

-- `controller sent unexpected frame: `
abbrev pub controller_unexpected : Text
controller_unexpected =
    99 ∷ 111 ∷ 110 ∷ 116 ∷ 114 ∷ 111 ∷ 108 ∷ 108 ∷ 101 ∷ 114 ∷ 32 ∷ 115 ∷ 101 ∷ 110 ∷ 116 ∷ 32 ∷ 117
    ∷ 110 ∷ 101 ∷ 120 ∷ 112 ∷ 101 ∷ 99 ∷ 116 ∷ 101 ∷ 100 ∷ 32 ∷ 102 ∷ 114 ∷ 97 ∷ 109 ∷ 101 ∷ 58 ∷ 32
    ∷ []

-- `Ord` of `str`: the bytes in lexicographic order.
abbrev pub text_le : Text → Text → Bool
text_le [] ys = true
text_le (x ∷ xs) [] = false
text_le (x ∷ xs) (y ∷ ys) = if ltb x y then true else if ltb y x then false else text_le xs ys

insert_name : Text → List Text → List Text
insert_name x [] = x ∷ []
insert_name x (y ∷ ys) = if text_le x y then x ∷ y ∷ ys else y ∷ insert_name x ys

-- `sort_unstable`
sort_names : List Text → List Text
unfolding insert_name
sort_names [] = []
sort_names (x ∷ xs) = insert_name x (sort_names xs)

join : List Text → Text
join [] = []
join (x ∷ []) = x
join (x ∷ y ∷ ys) = x ++ (comma ++ join (y ∷ ys))

unfoldable pub not_connected : Text → List Text → Text
unfolding sort_names join
not_connected target names =
    agent_tick ++ (target ++ (tick_not_connected ++ (join (sort_names names) ++ paren)))

unfoldable pub several : List Text → Text
unfolding sort_names join
several names = several_agents ++ (join (sort_names names) ++ paren)

unfoldable pub unreachable : Text → Text
unreachable name = agent_tick ++ (name ++ tick_unreachable)

unfoldable pub disconnected : Text → Text
disconnected name = agent_tick ++ (name ++ tick_disconnected)

unfoldable pub already_connected : Text → Text
already_connected name = agent_tick ++ (name ++ tick_already)

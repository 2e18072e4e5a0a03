-- ===== src/Chat/Commands.antt =====
-- internal/chat/commands.go: the command list of the menu.
use property_search.Prelude.{Text, codes, List, [], ◌∷◌}

-- `BotCommands`: names and descriptions.
abbrev pub bot_commands : List (Text × Text)
bot_commands =
    (codes "start", codes "Darte de alta o reanudar las notificaciones")
    ∷ (codes "addurl", codes "Sumar otra búsqueda")
    ∷ (codes "rmurl", codes "Borrar una búsqueda")
    ∷ (codes "list", codes "Ver tus búsquedas y su estado")
    ∷ (codes "model", codes "Qué aprendió de tus calificaciones")
    ∷ (codes "stop", codes "Pausar las notificaciones")
    ∷ (codes "buscar", codes "Buscar publicaciones nuevas ahora")
    ∷ (codes "borrardatos", codes "Borrar todos tus datos")
    ∷ (codes "help", codes "Ver la ayuda")
    ∷ []
